-- ===== src/Pg.antt =====
-- ipapp/db/pg.py: a connection and its transactions, the record of queries in spans, and the attempts to connect. What
-- the asyncpg library returns or raises is an argument.
pub mod Connect
pub mod Transactions
pub mod Queries
mod Tests
use ipapp.Common.{String}

-- An exception of the library, or of the code itself.
pub data PgError : Type 0 where
  user_warning prepare_error : PgError
  postgres_error json_error : String → PgError
