-- ===== src/Store.antt =====
-- The data of the runtime (proc.h, scheduler.h, chan.h, alt.h, csp.h), the store in which its structs
-- live, and the monad of its functions.
mod Types
mod Monad
mod Cells
pub use Types.*
unfoldable pub use Monad.*
unfoldable pub use Cells.*
