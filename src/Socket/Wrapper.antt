-- ===== src/Socket/Wrapper.antt =====
-- src/jdwp_socket.cpp: `JdwpSocket`, which owns a `JdwpSocket::Impl` and passes its calls on to it.
use roastery.Prelude.{ℕ, Bool, Option, List}
use roastery.Bytes.{Bytes}
use roastery.Action.{Action}
use roastery.Handles.{Handles, construct_object, move_construct, move_assign, destruct, on_impl}
use roastery.Socket
use roastery.Socket.{Platform, Answer, Socket}
use roastery.Socket.Connect.{Network}
use roastery.Socket.Constructor.{new_socket, new_local_socket}

-- The program's objects of the class `JdwpSocket`.
abbrev pub JdwpSockets : Type 0
JdwpSockets = Handles Socket

-- `JdwpSocket(address, port)` and `JdwpSocket(port)`.
unfoldable pub new_jdwp_socket :
    Platform → Network → Bytes → ℕ → List Answer → List Answer → Action JdwpSockets (Unit {0})
unfolding construct_object new_socket
new_jdwp_socket p network address port sends reads =
    construct_object (new_socket p network address port sends reads)

unfoldable pub new_local_jdwp_socket :
    Platform → Network → ℕ → List Answer → List Answer → Action JdwpSockets (Unit {0})
unfolding construct_object new_local_socket
new_local_jdwp_socket p network port sends reads =
    construct_object (new_local_socket p network port sends reads)

-- `JdwpSocket(JdwpSocket&&)`, `operator=(JdwpSocket&&)` and `~JdwpSocket`, which are defaulted.
unfoldable pub move_jdwp_socket : ℕ → JdwpSockets → JdwpSockets
unfolding move_construct
move_jdwp_socket other = move_construct other

unfoldable pub assign_jdwp_socket : ℕ → ℕ → JdwpSockets → JdwpSockets
unfolding move_assign
assign_jdwp_socket this other = move_assign this other

unfoldable pub destroy_jdwp_socket : ℕ → JdwpSockets → JdwpSockets
unfolding destruct
destroy_jdwp_socket this = destruct this

-- `Write`, `CanRead` and `Read` of the object `this`.
unfoldable pub write : Platform → ℕ → List Answer → Bytes → Action JdwpSockets (Unit {0})
unfolding on_impl Socket.write
write p this answers text = on_impl this (Socket.write p answers text)

unfoldable pub can_read : Platform → ℕ → Option ℕ → ℕ → Action JdwpSockets Bool
unfolding on_impl Socket.can_read
can_read p this revents errno = on_impl this (Socket.can_read p revents errno)

unfoldable pub read : Platform → ℕ → List Answer → ℕ → Action JdwpSockets Bytes
unfolding on_impl Socket.read
read p this answers len = on_impl this (Socket.read p answers len)
