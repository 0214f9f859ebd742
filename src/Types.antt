-- ===== src/Types.antt =====
-- The data that the frontend exchanges with the server: frontend/src/types and the interfaces of
-- frontend/src/api. A `string` is a text, `T | null` and an optional field are options.
pub mod Record
pub mod Subnet
pub mod Scan
pub mod Auth
pub mod Sample
pub mod User
pub mod Vault
pub mod PaloAlto
