-- ===== src/Glib.antt =====
-- What the program takes from GLib: its functions are a parameter, with what their documentation says
-- of them as laws, and one instance that meets the laws.
mod Sequences
mod Hashes
mod LinkedQueues
pub use Sequences.*
pub use Hashes.*
pub use LinkedQueues.*
