-- ===== src/Tests.antt =====
-- The theorems at concrete inputs: an in-memory file system, a cloud of one provider and a machine,
-- and the theorems applied to them.
mod Files
mod Numbers
mod Cloud
mod Ec2
mod Arm
mod IbmCloud
mod Vpc
mod AzureTests
mod LibvirtTests
mod IbmTests
mod AwsTests
mod StoreTests
mod ControllerTests
mod ServiceTests
mod NodeTests
mod DriverTests
