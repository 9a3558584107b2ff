-- ===== src/Socket.antt =====
-- src/jdwp_socket.cpp: `JdwpSocket::Impl`, its `Write`, `CanRead` and `Read`. The operating system
-- is given by the answers of its calls: the state keeps what the kernel has accepted and what the
-- peer still sends before it closes the stream. A call with no answer left still waits.
pub mod Writes
pub mod Interrupted
pub mod Reads
pub mod Keeps
pub mod Descriptor
pub mod Streams
pub mod Connect
pub mod Constructor
pub mod Handshake
pub mod Wrapper
pub mod Open
pub mod Addresses
pub mod Iterations
use Prim.Native.Nat.{min, bit_and}
use roastery.Prelude.{
  ℕ, suc, ◌+◌, ◌-◌, ◌%◌, ◌^◌, String, Bool, true, false, ◌||◌, Option, none, some, List, [], ◌∷◌,
  ◌++◌, length, take, drop, ◌≡◌, ap, ltb, ◌==◌, not, if◌then◌else◌,
}
use roastery.Outcome.{
  Outcome, ok, raised, out_of_fuel, jdwp_exception, logic_error, system_error, length_error, Fault,
}
use roastery.Bytes.{Bytes}
use roastery.Action.{Action}

-- The numbers of the platform's headers that the code uses.
pub record Platform : Type 0 where
  pub bufsiz : ℕ
  pub eagain : ℕ
  pub eintr : ℕ
  pub epipe : ℕ
  pub pollin : ℕ
  pub pollerr : ℕ
  pub eai_system : ℕ

-- What a `send` or a `read` comes to: at most so many bytes are moved, or -1 with an errno.
pub data Answer : Type 0 where
  bytes : ℕ → Answer
  failed : ℕ → Answer

-- `sock_fd` is `none` where the code has -1; `closed` are the descriptors that were closed.
pub record Socket : Type 0 where
  pub sock_fd : Option ℕ
  pub outbox : Bytes
  pub inbox : Bytes
  pub closed : List ℕ

abbrev pub connection_closed : Fault
connection_closed = jdwp_exception "Connection closed"

-- The descriptor as a list, for the log of `close`: `close(-1)` does nothing.
abbrev pub descriptor : Option ℕ → List ℕ
descriptor none = []
descriptor (some fd) = fd ∷ []

-- `Close`.
unfoldable pub close : Socket → Socket
close s = record s { sock_fd = none; closed = s.closed ++ descriptor s.sock_fd }

-- `~Impl`.
unfoldable pub destroy : Socket → Socket
destroy s = record s { closed = s.closed ++ descriptor s.sock_fd }

-- `errno == EAGAIN || errno == EINTR`.
abbrev pub is_retried : Platform → ℕ → Bool
is_retried p errno = (errno == p.eagain) || (errno == p.eintr)

-- What `send` hands over of the string's rest when it takes `n` bytes at most.
abbrev pub send : ℕ → Bytes → Socket → Socket
send n rest s = record s { outbox = s.outbox ++ take n rest }

-- Every method first looks whether the socket is connected.
abbrev pub when_open {ℓ} : {A : Type ℓ} → Option ℕ → String → Action Socket A → Action Socket A
when_open none what k s = (raised (logic_error what), s)
when_open (some fd) what k s = k s

abbrev pub connected {ℓ} : {A : Type ℓ} → String → Action Socket A → Action Socket A
connected what k s = when_open s.sock_fd what k s

module _ {ℓ} {A : Type ℓ} (what : String) (k : Action Socket A) (s : Socket) where
  pub connected_open : {fd : ℕ} → s.sock_fd ≡ some fd → connected what k s ≡ k s
  connected_open e = ap (λ o. when_open o what k s) e

  pub connected_closed : s.sock_fd ≡ none → connected what k s ≡ (raised (logic_error what), s)
  connected_closed e = ap (λ o. when_open o what k s) e

module _ (p : Platform) where
  -- The loop of `Write`. Behind a failure that is retried, -1 is added to the count all the same.
  unfoldable pub write_loop : List Answer → Bytes → ℕ → Action Socket (Unit {0})
  write_loop [] text bytes_written s =
      (if ltb bytes_written (length text) then out_of_fuel else ok tt, s)
  write_loop (answer ∷ answers) text bytes_written s = elim (ltb bytes_written (length text)) [
    | false ↦ (ok tt, s)
    | true ↦ elim answer [
      | bytes n ↦
          let written = min n (length text - bytes_written) in
          write_loop answers text ((bytes_written + written) % 2 ^ 64)
            (send written (drop bytes_written text) s)
      | failed errno ↦ elim (errno == p.epipe) [
        | true ↦ (raised connection_closed, close s)
        | false ↦ elim (is_retried p errno) [
          | true ↦ write_loop answers text ((bytes_written + (2 ^ 64 - 1)) % 2 ^ 64) s
          | false ↦ (raised (system_error errno), s)
        ]
      ]
    ]
  ]

  -- `Write`.
  unfoldable pub write : List Answer → Bytes → Action Socket (Unit {0})
  unfolding write_loop
  write answers text = connected "Cannot write while not connected" (write_loop answers text 0)

  -- What `read` takes from the stream into `buf`.
  abbrev pub receive : ℕ → ℕ → Socket → Bytes
  receive n wanted s = take (min n (min p.bufsiz wanted)) s.inbox

  -- The loop of `Read`. A failure that is retried appends `buf` with the length -1.
  unfoldable pub read_loop : List Answer → ℕ → ℕ → Bytes → Action Socket Bytes
  unfolding close
  read_loop [] len bytes_read out s = (if ltb bytes_read len then out_of_fuel else ok out, s)
  read_loop (answer ∷ answers) len bytes_read out s = elim (ltb bytes_read len) [
    | false ↦ (ok out, s)
    | true ↦ elim answer [
      | failed errno ↦ (raised (if is_retried p errno then length_error else system_error errno), s)
      | bytes n ↦ elim (receive n (len - bytes_read) s) [
        | [] ↦ (raised connection_closed, close s)
        | b ∷ bs ↦
            read_loop answers len ((bytes_read + length (b ∷ bs)) % 2 ^ 64) (out ++ (b ∷ bs))
              (record s { inbox = drop (length (b ∷ bs)) s.inbox })
      ]
    ]
  ]

  -- `Read`.
  unfoldable pub read : List Answer → ℕ → Action Socket Bytes
  unfolding read_loop
  read answers len = connected "Cannot read while not connected" (read_loop answers len 0 [])

  -- `CanRead`: `poll` has returned a count with `revents`, or -1; `errno` is what it holds then.
  unfoldable pub can_read : Option ℕ → ℕ → Action Socket Bool
  can_read revents errno = connected "Cannot poll while not connected" λ s. (
    elim revents [
      | none ↦ raised (system_error errno)
      | some events ↦
          if not (bit_and events p.pollerr == 0)
          then raised (system_error errno)
          else ok (not (bit_and events p.pollin == 0))
    ],
    s,
  )
