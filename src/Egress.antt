-- ===== src/Egress.antt =====
-- sandbox/sni_proxy.py: the proxy through which a sandbox reaches the network.
pub mod Domain
pub mod Ports
pub mod Dns
pub mod Sni
pub mod Proxy
pub mod Matching
pub mod Tunnel
pub mod Fuel
pub mod AllowList
pub mod Tests
