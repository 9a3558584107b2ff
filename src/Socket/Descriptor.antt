-- ===== src/Socket/Descriptor.antt =====
-- src/jdwp_socket.cpp: the descriptor of a socket over its life.
use roastery.Prelude.{ℕ, ◌≡◌, refl, ap, ap₂, ◌∙◌, Option, some, List, [], ◌∷◌, ◌++◌}
use roastery.Bytes.{Bytes}
use roastery.Socket.{Platform, Answer, Socket, descriptor, destroy, write, read, can_read}
use roastery.Socket.Keeps.{descriptors, write-descriptors, read-descriptors, can_read-unchanged}

-- A call of one of the three methods, with the answers of the system.
pub data Call : Type 0 where
  call_write : List Answer → Bytes → Call
  call_read : List Answer → ℕ → Call
  call_can_read : Option ℕ → ℕ → Call

-- The socket behind some calls, those that throw among them.
unfoldable pub after_calls : Platform → List Call → Socket → Socket
unfolding write read can_read
after_calls p [] s = s
after_calls p (call_write answers text ∷ calls) s = after_calls p calls (write p answers text s).1
after_calls p (call_read answers len ∷ calls) s = after_calls p calls (read p answers len s).1
after_calls p (call_can_read revents errno ∷ calls) s =
    after_calls p calls (can_read p revents errno s).1

after_calls-descriptors :
    (p : Platform) (calls : List Call) (s : Socket)
    → descriptors (after_calls p calls s) ≡ descriptors s
unfolding after_calls
after_calls-descriptors p [] s = refl
after_calls-descriptors p (call_write answers text ∷ calls) s =
    after_calls-descriptors p calls (write p answers text s).1 ∙ write-descriptors p answers text s
after_calls-descriptors p (call_read answers len ∷ calls) s =
    after_calls-descriptors p calls (read p answers len s).1 ∙ read-descriptors p answers len s
after_calls-descriptors p (call_can_read revents errno ∷ calls) s =
    after_calls-descriptors p calls (can_read p revents errno s).1
    ∙ ap descriptors (can_read-unchanged p revents errno s)

-- Whatever methods of an open socket are called, with whatever answers of the system, also after
-- calls that threw or closed the socket: when the socket is then destroyed, its descriptor has been
-- closed once, and no other one has been.
pub destroy-after_calls :
    (p : Platform) (calls : List Call) (s : Socket) {fd : ℕ}
    → s.sock_fd ≡ some fd
    → s.closed ≡ []
    → (destroy (after_calls p calls s)).closed ≡ fd ∷ []
unfolding destroy
destroy-after_calls p calls s e fresh =
    after_calls-descriptors p calls s ∙ ap₂ (λ closed fd. closed ++ descriptor fd) fresh e
