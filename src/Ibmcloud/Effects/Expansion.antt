-- ===== src/Ibmcloud/Effects/Expansion.antt =====
-- What ExpandVolume of pkg/provider/ibmcloud/provider.go asks of the session.
