-- ===== src/Models.antt =====
-- The models of client-go (goauthentik.io/api/v3) that the operator sends and receives, with the
-- fields that it reads or writes. They are not code of this repository.
mod Enums
mod Objects
mod Requests
pub mod Json
unfoldable pub use Enums.*
pub use Objects.*
pub use Requests.*
