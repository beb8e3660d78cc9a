-- ===== src/Network.antt =====
-- internal/vmmanager/network.go: the network plan of a slot, the tap device and the firewall.
pub mod Address
pub mod Derive
pub mod Tap
pub mod Firewall
