-- ===== src/System/Deaths.antt =====
-- A death notice of the server, from its bytes to the recipient in the client.
use binderd.Message.{Message}
use binderd.Status.{Status}
use binderd.Client.State.{Client}
