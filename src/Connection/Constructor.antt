-- ===== src/Connection/Constructor.antt =====
-- src/jdwp_con.cpp: the constructor and the destructor of `JdwpCon::Impl`.
use roastery.Prelude.{ℕ, false, none, List, []}
use roastery.Outcome.{Outcome}
use roastery.Bytes.{Bytes}
use roastery.Socket
use roastery.Socket.{Platform, Answer, Socket}
use roastery.Socket.Connect.{Network}
use roastery.Socket.Constructor.{localhost, new_socket}
use roastery.Connection.{Connection}

-- The members before the threads have taken a step.
abbrev pub new_members : {W : Type 0} → W → Socket → Connection W
new_members world socket = record {
  socket = socket;
  should_cancel = false;
  outgoing_messages = [];
  next_packet = none;
  writer_in_loop = false;
  reader_in_loop = false;
  event_handlers = [];
  world = world;
}

-- `Impl(address, port)`; `world` is what the handlers will act on.
unfoldable pub new_connection :
    {W : Type 0}
    → W
    → Platform
    → Network
    → Bytes
    → ℕ
    → List Answer
    → List Answer
    → Outcome (Unit {0}) × Connection W
unfolding new_socket
new_connection world p network address port answers reads =
    let (r, socket) = new_socket p network address port answers reads in
    (r, new_members world socket)

-- `Impl(port)`.
unfoldable pub new_local_connection :
    {W : Type 0}
    → W
    → Platform
    → Network
    → ℕ
    → List Answer
    → List Answer
    → Outcome (Unit {0}) × Connection W
unfolding new_connection
new_local_connection world p network port answers reads =
    new_connection world p network localhost port answers reads

-- The end of `~Impl`, behind the `join`s of the threads: the socket is destroyed.
unfoldable pub destroy_members : {W : Type 0} → Connection W → Connection W
destroy_members c = record c { socket = Socket.destroy c.socket }
