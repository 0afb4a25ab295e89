-- ===== src/Table.antt =====
-- A database table as the list of its rows in insertion order, read and written by a key: what the
-- control plane uses of a SQLAlchemy session on one mapped class. Queries on several columns are
-- `select` of Prelude/Lists.antt.
mod Defs
mod Laws
mod Unique
mod Growth
unfoldable pub use Defs.{find, add, save, remove, update_where}
pub use Laws.*
pub use Unique.*
pub use Growth.*
