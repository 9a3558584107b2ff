-- ===== src/Packet/RoundTrip.antt =====
-- A reader of a command packet finds its class and its fields.
use roastery.Prelude.{
  [], ℕ, ◌-◌, ◌^◌, ◌≤◌, ◌<◌, ◌≡◌, ap, ◌∙◌, false, append-nil, some, ◌++◌, length, length-append,
  arith,
}
use roastery.Outcome.{ok, ◌>>=◌}
use roastery.Bytes.{Bytes, char_at}
use roastery.HostOrder.{read_ntohl}
use roastery.Con.{Con, IsSupported}
use roastery.Fields.{serialize_elements}
use roastery.Fields.Body.{Blanks, AreValid, AreClear, read_elements}
use roastery.Fields.Body.RoundTrip.{read_elements-serialize_elements}
use roastery.Command.{Command, command_set, command, request}
use roastery.Command.Codes.{of_codes, of_codes-command}
use roastery.Event.{header_is_event}
use roastery.Packet.{CommandPacket, serialize_impl}
use roastery.Packet.Framing.{
  header_bytes, length-header_bytes, header_bytes-IsFramed, produce_header_lem,
  header_is_event-IsFramed,
}

-- What a reader of `sent` makes of it: its length, its ID, that it is no event, the class of its
-- command and the values of its fields.
pub record IsReadAs {c : Command} (con : Con) (blanks : Blanks (request c))
    (packet : CommandPacket c) (sent : Bytes) : Type 0 where
  pub length_field : read_ntohl 0 sent ≡ ok (length sent)
  pub id_field : read_ntohl 4 sent ≡ ok packet.id
  pub no_event : header_is_event sent ≡ ok false
  pub class : (do set ← char_at sent 9; cmd ← char_at sent 10; ok (of_codes set cmd)) ≡ ok (some c)
  pub body : read_elements (request c) blanks con sent 11 ≡ ok (length sent, packet.fields)

-- The base class's `SerializeImpl`: a command with valid fields, over a connection whose ID sizes are at most 8 bytes, with an ID
-- below 2 ^ 32 and a body of at most 2 ^ 32 - 12 bytes, is sent as a packet from which a reader
-- gets the packet's length, its ID, that it is no event, its class, and, into fields whose IDs are
-- clear, all of its fields.
pub serialize_impl-IsReadAs :
    (c : Command) (packet : CommandPacket c) (con : Con) (blanks : Blanks (request c))
    (body : Bytes)
    → IsSupported con
    → AreValid con (request c) packet.fields
    → AreClear con (request c) blanks
    → serialize_elements (request c) packet.fields con ≡ ok body
    → length body ≤ 2 ^ 32 - 12
    → packet.id < 2 ^ 32
    → (sent : Bytes) × (serialize_impl c packet con ≡ ok sent) × IsReadAs con blanks packet sent
unfolding serialize_impl
serialize_impl-IsReadAs c packet con blanks body supported valid clear fields short id =
    let header : Bytes = header_bytes (command_set c) (command c) (length body) packet.id in
    let framed = header_bytes-IsFramed (command_set c) (command c) packet.id body short id in
    let header_size : length header ≡ 11 =
      length-header_bytes (command_set c) (command c) (length body) packet.id in
    let found =
      read_elements-serialize_elements con supported (request c) packet.fields blanks body header []
        11 valid clear fields header_size in
    (
      header ++ body,
      rw (fields, produce_header_lem (command_set c) (command c) (length body) packet.id short),
      record {
        length_field = framed.length_field;
        id_field = framed.id_field;
        no_event = header_is_event-IsFramed c (header ++ body) body packet.id framed;
        class = rw (framed.set_field, framed.command_field, of_codes-command c);
        body =
            rw (append-nil body) at found
            ∙ ap (λ (n : ℕ). ok (n, packet.fields))
                (omega (arith, header_size, length-append header body));
      },
    )
