-- ===== src/Examples/RpcServer.antt =====
-- RpcServerImpl of examples/lt_app/grpc_server_impl.h and .cc: a server with completion queues for
-- its message loops. grpc is a parameter: its builder, its queues and its servers.
mod Tests
use ltapp.Base.{
  ℕ, zero, suc, ◌+◌, ◌*◌, List, [], ◌∷◌, ◌++◌, Option, none, some, String, ltb, if◌then◌else◌,
  length, length-append,
}

pub record Grpc : Type 1 where
  pub Builder : Type 0
  pub Queue : Type 0
  pub Server : Type 0
  pub builder : Builder
  -- With grpc::InsecureServerCredentials().
  pub add_listening_port : String → Builder → Builder
  pub register_service : Builder → Builder
  pub add_completion_queue : Builder → Builder × Queue
  pub build_and_start : Builder → Option Server

-- std::min
abbrev pub min : ℕ → ℕ → ℕ
min a b = if ltb b a then b else a

module _ (g : Grpc) where
  pub record RpcServerImpl : Type 0 where
    pub server : Option g.Server
    pub srv_cqs : List g.Queue
    -- The calls of RequestSayHello on service_, each with a new call context: their queues.
    pub requested : List g.Queue
    -- Message loops, named by numbers.
    pub queue_loops : List ℕ

  unfoldable pub new : RpcServerImpl
  new = record { server = none; srv_cqs = []; requested = []; queue_loops = [] }

  unfoldable pub with_complete_queue_loop : List ℕ → RpcServerImpl → RpcServerImpl
  with_complete_queue_loop loops s = record s { queue_loops = loops }

  -- BindRequest2Queue of a new RpcSayHelloCallContext.
  unfoldable pub bind_request_to_queue : g.Queue → RpcServerImpl → RpcServerImpl
  bind_request_to_queue q s = record s { requested = s.requested ++ q ∷ [] }

  -- The rounds that are left of the loop that makes queues.
  unfoldable pub add_queues : ℕ → g.Builder → RpcServerImpl → g.Builder × RpcServerImpl
  add_queues zero b s = (b, s)
  add_queues (suc n) b s =
      let (b', q) = g.add_completion_queue b in
      add_queues n b' (record s { srv_cqs = s.srv_cqs ++ q ∷ [] })

  unfoldable pub bind_contexts : ℕ → g.Queue → RpcServerImpl → RpcServerImpl
  unfolding bind_request_to_queue
  bind_contexts zero q s = s
  bind_contexts (suc n) q s = bind_contexts n q (bind_request_to_queue q s)

  unfoldable pub bind_queues : List g.Queue → RpcServerImpl → RpcServerImpl
  bind_queues [] s = s
  bind_queues (q ∷ qs) s = bind_queues qs (bind_contexts 1000 q s)

  -- Serve; its last loop does nothing for each of the message loops.
  unfoldable pub serve : String → RpcServerImpl → RpcServerImpl
  unfolding add_queues
  serve addr s =
      let (b, s') =
        add_queues (min 1 (length s.queue_loops))
          (g.register_service (g.add_listening_port addr g.builder)) s in
      let s'' = bind_queues s'.srv_cqs s' in record s'' { server = g.build_and_start b }

  -- A server that was not started, for some loops.
  abbrev pub for_loops : List ℕ → RpcServerImpl
  for_loops loops = with_complete_queue_loop loops new

  unfoldable pub repeat : ℕ → g.Queue → List g.Queue
  repeat zero q = []
  repeat (suc n) q = q ∷ repeat n q

  -- The builder of Serve before its loops.
  abbrev pub listening : String → g.Builder
  listening addr = g.register_service (g.add_listening_port addr g.builder)
