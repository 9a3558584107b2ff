-- ===== src/Tests/Sockets.antt =====
-- A socket on a scripted system, with the numbers of Linux and glibc.
use roastery.Prelude.{
  length, ℕ, ◌-◌, ◌^◌, ◌≡◌, refl, Option, none, some, List, [], ◌∷◌, ◌++◌, replicate, All,
  All-replicate, take, if◌then◌else◌, arith,
}
use roastery.Outcome.{ok, raised, jdwp_exception, logic_error, length_error}
use roastery.Bytes.{Bytes}
use roastery.Socket.{
  Platform, Answer, bytes, failed, Socket, close, destroy, connection_closed, read, write, can_read,
}
use roastery.Socket.Writes.{IsSent, IsMoving, write-IsSent, write-delivers}
use roastery.Socket.Interrupted.{write-repeats, read-retried}
use roastery.Socket.Reads.{read-ok}
use roastery.Socket.Streams.{read-delivers, read-eof}
use roastery.Socket.Descriptor.{
  Call, call_write, call_read, call_can_read, after_calls, destroy-after_calls,
}
use roastery.Socket.Connect.{SockaddrIn6, Network, created, resolved, connect, connect_loop, htons}
use roastery.Socket.Constructor.{
  jdwp_handshake, same, localhost, new_socket, shake_hands, check_reply,
}
use roastery.Socket.Handshake.{new_socket-handshake, new_socket-ok}

abbrev pub linux : Platform
linux = record {
  bufsiz = 8192;
  eagain = 11;
  eintr = 4;
  epipe = 32;
  pollin = 1;
  pollerr = 8;
  eai_system = 2 ^ 32 - 11;
}

-- Descriptor 3, with five bytes to come.
abbrev pub open_socket : Socket
open_socket = record {
  sock_fd = some 3;
  outbox = 9 ∷ [];
  inbox = 1 ∷ 2 ∷ 3 ∷ 4 ∷ 5 ∷ [];
  closed = [];
}

write-IsSent_example :
    (k : ℕ) × IsSent (write linux (bytes 2 ∷ failed 32 ∷ []) (5 ∷ 6 ∷ 7 ∷ []) open_socket).0 3 k
    × ((write linux (bytes 2 ∷ failed 32 ∷ []) (5 ∷ 6 ∷ 7 ∷ []) open_socket).1.outbox
        ≡ (9 ∷ []) ++ take k (5 ∷ 6 ∷ 7 ∷ []))
write-IsSent_example =
    write-IsSent linux (bytes 2 ∷ failed 32 ∷ []) (5 ∷ 6 ∷ 7 ∷ []) open_socket (tt, (refl, tt))
      (omega arith)

abbrev three : List Answer
three = bytes 2 ∷ bytes 9 ∷ bytes 1 ∷ []

write-delivers_example :
    write linux three (5 ∷ 6 ∷ 7 ∷ []) open_socket
    ≡ (ok tt, record open_socket { outbox = 9 ∷ 5 ∷ 6 ∷ 7 ∷ [] })
write-delivers_example =
    write-delivers linux three (5 ∷ 6 ∷ 7 ∷ []) open_socket refl
      (omega arith, (omega arith, (omega arith, tt))) (omega arith) (omega arith)

write-repeats_example :
    (write linux (failed 4 ∷ []) (5 ∷ 6 ∷ 7 ∷ []) open_socket ≡ (ok tt, open_socket))
    × (write linux (bytes 2 ∷ failed 4 ∷ bytes 3 ∷ []) (5 ∷ 6 ∷ 7 ∷ []) open_socket
        ≡ (ok tt, record open_socket { outbox = 9 ∷ 5 ∷ 6 ∷ 6 ∷ 7 ∷ [] }))
write-repeats_example =
    write-repeats linux 2 4 [] (5 ∷ 6 ∷ 7 ∷ []) open_socket refl refl refl (omega arith)
      (omega arith) (omega arith)

abbrev next_bytes : Bytes
next_bytes = 1 ∷ 2 ∷ 3 ∷ []

read-ok_example :
    (length next_bytes ≡ 3)
    × (next_bytes ++ (read linux three 3 open_socket).1.inbox ≡ 1 ∷ 2 ∷ 3 ∷ 4 ∷ 5 ∷ [])
unfolding read
read-ok_example = read-ok linux three 3 open_socket {got = next_bytes} (omega arith) refl

read-delivers_example :
    read linux three 3 open_socket
    ≡ (ok (1 ∷ 2 ∷ 3 ∷ []), record open_socket { inbox = 4 ∷ 5 ∷ [] })
read-delivers_example =
    read-delivers linux three 3 open_socket (omega arith) (omega arith) refl
      (omega arith, (omega arith, (omega arith, tt))) (omega arith) (omega arith)

-- One byte is left and two are asked for.
abbrev last_byte : Socket
last_byte = record open_socket { inbox = 5 ∷ [] }

read-eof_example :
    (read linux three 2 last_byte
      ≡ (raised connection_closed, close (record last_byte { inbox = [] })))
    × (let later = close (record last_byte { inbox = [] }) in
        (later.closed ≡ 3 ∷ [])
        × ((again : List Answer) (n : ℕ)
            → read linux again n later
              ≡ (raised (logic_error "Cannot read while not connected"), later))
        × ((again : List Answer) (text : Bytes)
            → write linux again text later
              ≡ (raised (logic_error "Cannot write while not connected"), later))
        × ((revents : Option ℕ) (errno : ℕ)
            → can_read linux revents errno later
              ≡ (raised (logic_error "Cannot poll while not connected"), later)))
read-eof_example =
    read-eof linux three 2 last_byte (omega arith) (omega arith) refl
      (omega arith, (omega arith, (omega arith, tt))) (omega arith) (omega arith)

-- The stream ends in the first call, which closes the socket.
abbrev calls : List Call
calls = call_read three 9 ∷ call_write three (1 ∷ []) ∷ call_can_read (some 8) 0 ∷ []

destroy-after_calls_example : (destroy (after_calls linux calls open_socket)).closed ≡ 3 ∷ []
destroy-after_calls_example = destroy-after_calls linux calls open_socket refl refl

read-retried_example :
    read linux (bytes 2 ∷ failed 11 ∷ []) 3 open_socket
    ≡ (raised length_error, record open_socket { inbox = 3 ∷ 4 ∷ 5 ∷ [] })
read-retried_example =
    read-retried linux 2 11 3 [] open_socket (omega arith) refl refl (omega arith) (omega arith)
      (omega arith) (omega arith)

abbrev pub addr : SockaddrIn6
addr = record { sin6_port = 0; sin6_addr = 1 }

-- The first address refuses and the second does not; the peer there shakes hands and then sends two
-- bytes.
abbrev pub network : Network
network = record {
  socket = created 3;
  getaddrinfo = λ address. resolved (record { sin6_port = 0; sin6_addr = 2 } ∷ addr ∷ []);
  connects = some 111 ∷ none ∷ [];
  errno = 0;
  peer = λ at. jdwp_handshake ++ (8 ∷ 9 ∷ []);
}

abbrev pub fourteen : List Answer
fourteen = replicate 14 (bytes 1)

pub fourteen-IsMoving : All IsMoving fourteen
fourteen-IsMoving = All-replicate IsMoving 14 (bytes 1) (omega arith)

new_socket-handshake_example : new_socket linux network localhost 3262 fourteen fourteen ≡ (
    if same (take 14 (jdwp_handshake ++ (8 ∷ 9 ∷ []))) jdwp_handshake
    then (
      ok tt,
      record { sock_fd = some 3; outbox = jdwp_handshake; inbox = 8 ∷ 9 ∷ []; closed = [] },
    )
    else (
      raised (jdwp_exception "Bad handshake reply"),
      record { sock_fd = some 3; outbox = jdwp_handshake; inbox = 8 ∷ 9 ∷ []; closed = 3 ∷ [] },
    ))
unfolding connect connect_loop htons
new_socket-handshake_example =
    new_socket-handshake linux network localhost 3262 fourteen fourteen
      {addr = record addr { sin6_port = htons 3262 }} refl (omega arith) fourteen-IsMoving
      fourteen-IsMoving (omega arith) (omega arith) (omega arith)

new_socket-ok_example :
    (made : ℕ × SockaddrIn6) × (connect linux network localhost 3262 ≡ ok made)
    × (jdwp_handshake ++ (8 ∷ 9 ∷ []) ≡ network.peer made.1)
unfolding connect connect_loop htons new_socket shake_hands check_reply write read
new_socket-ok_example =
    new_socket-ok linux network localhost 3262 fourteen fourteen
      {later = record {
        sock_fd = some 3;
        outbox = jdwp_handshake;
        inbox = 8 ∷ 9 ∷ [];
        closed = [];
      }}
      refl
