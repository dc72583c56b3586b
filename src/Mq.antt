-- ===== src/Mq.antt =====
-- ipapp/mq/pika.py: the connection, the channels, and the component `Pika` that opens and reopens them. What the
-- broker does and when is an argument; the calls of the pika library return.
pub mod Connection
pub mod Closing
pub mod Channel
pub mod Closed
pub mod Connect
pub mod Calls
mod Tests
use ipapp.Common.{String}

-- The exceptions that the code tells apart.
pub data MqError : Type 0 where
  connection_closed closed_by_client timeout runtime_error invalid_state user_warning
        prepare_error :
      MqError
  other : String → MqError
