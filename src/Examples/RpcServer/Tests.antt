-- ===== src/Examples/RpcServer/Tests.antt =====
-- Serve with builders, queues and servers that are numbers.
use ltapp.Base.{ℕ, ◌+◌, some}
use ltapp.Examples.RpcServer.{Grpc}

-- A builder counts its queues.
abbrev counting : Grpc
counting = record {
  Builder = ℕ;
  Queue = ℕ;
  Server = ℕ;
  builder = 0;
  add_listening_port = λ addr b. b;
  register_service = λ b. b;
  add_completion_queue = λ b. (b + 1, b);
  build_and_start = λ b. some b;
}
