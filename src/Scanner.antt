-- ===== src/Scanner.antt =====
-- backend/scanner: what the scanner decides by itself. nmap, the network and the devices are not
-- under the repository's control and are parameters of the modules below.
pub mod Validate
pub mod Credentials
pub mod Protocols
pub mod Tls
pub mod Nmap
