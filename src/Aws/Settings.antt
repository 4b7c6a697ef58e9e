-- ===== src/Aws/Settings.antt =====
-- NewAWSProvider and newEC2Client. What awsconfig.LoadDefaultConfig and ec2.NewFromConfig make of
-- credentials and a region is a parameter.
pub mod Laws
use caa_csi_block_driver.Provider.Numbers.{is_positive, positive_within}
use caa_csi_block_driver.Prelude.{
  ℕ, zero, suc, ◌-◌, ◌^◌, ℤ, pos, negsuc, ltb, leb, String, ◌<>◌, Bool, true, false, not, ◌&&◌,
  ◌||◌, Option, none, some, ◌==◌, if◌then◌else◌,
}
use caa_csi_block_driver.GoMap.{Params, get}
use caa_csi_block_driver.Result.{Result, ok, err, error, wrap}
use caa_csi_block_driver.Provider.{Call}
use caa_csi_block_driver.Result.Bind.{◌>>=◌, ◌>>◌, require}
use caa_csi_block_driver.Aws.{Config, Ec2, AwsProvider, default_volume_type}

-- The volume types for which NewAWSProvider takes awsIops.
abbrev pub takes_iops : String → Bool
takes_iops t = t == "gp3" || t == "io1" || t == "io2"

-- The parameters' volume type.
abbrev volume_type_of : Params → String
volume_type_of params =
    if get params "awsVolumeType" == "" then default_volume_type else get params "awsVolumeType"

module _ (parse_int : String → Option ℤ) where
  checked : String → Option ℤ → Result ℤ
  checked name none = err (error ("invalid " <> name))
  checked name (some n) = ok n

  -- A parameter that is a positive int32, or zero where it is not set.
  unfoldable pub int32_param : String → String → Result ℤ
  unfolding checked positive_within
  int32_param name v =
      if v == "" then ok (pos 0) else checked name (positive_within (2 ^ 31 - 1) (parse_int v))

  check_types : String → ℤ → ℤ → Result (Unit {0})
  check_types volume_type iops throughput =
      if is_positive iops && not (takes_iops volume_type)
      then err (error "awsIops is only supported for gp3, io1, io2 volume types")
      else if is_positive throughput && not (volume_type == "gp3")
      then err (error "awsThroughput is only supported for gp3 volume type")
      else ok tt

  -- The Config that NewAWSProvider makes, or its error.
  unfoldable pub aws_config : Params → Result Config
  unfolding check_types int32_param
  aws_config params = do
    require (get params "awsRegion") "awsRegion is required for aws provider"
    let volume_type = volume_type_of params
    iops ← int32_param "awsIops" (get params "awsIops")
    throughput ← int32_param "awsThroughput" (get params "awsThroughput")
    check_types volume_type iops throughput
    ok (record {
      region = get params "awsRegion";
      availability_zone = get params "awsAvailabilityZone";
      volume_type = volume_type;
      access_key_id = get params "awsAccessKeyId";
      secret_key = get params "awsSecretKey";
      iops = iops;
      throughput = throughput;
      kms_key_id = get params "awsKmsKeyId";
    })

module _ {Cloud : Type 0}
    (load_default_config : Option (String × String) → String → Result (Ec2 Cloud)) where
  -- newEC2Client: with static credentials if there are both, else by the SDK's default chain
  unfoldable pub new_ec2_client : Config → Result (Ec2 Cloud)
  new_ec2_client cfg =
      if not (cfg.access_key_id == "") && not (cfg.secret_key == "")
      then load_default_config (some (cfg.access_key_id, cfg.secret_key)) cfg.region
      else load_default_config none cfg.region

  with_client : Config → Result (Ec2 Cloud) → Result (AwsProvider Cloud)
  with_client cfg (err e) = err (wrap "failed to create EC2 client" e)
  with_client cfg (ok client) = ok (record { ec2_client = client; config = cfg })

  unfoldable pub new_aws_provider : (String → Option ℤ) → Params → Result (AwsProvider Cloud)
  unfolding new_ec2_client with_client
  new_aws_provider parse_int params = do
    cfg ← aws_config parse_int params
    with_client cfg (new_ec2_client cfg)
