-- ===== src/Table.antt =====
-- A database table as the list of its rows, addressed by a key column. `find`, `remove` and
-- `update` are SELECT, DELETE and UPDATE by that key, and `insert` fails on a key that is taken,
-- as an INSERT into a table with a UNIQUE constraint does. The order of the rows means nothing.
mod Defs
mod Laws
mod Keys
mod Maps
unfoldable pub use Defs.*
pub use Laws.*
pub use Keys.*
pub use Maps.*
