-- ===== src/JdwpException.antt =====
-- src/jdwp_exception.cpp: `JdwpException`. Its base `std::runtime_error` keeps the message, and its
-- `what()` gives it as a C string, which ends at the first zero byte.
pub mod What
use roastery.Prelude.{
  ℕ, ◌≡◌, refl, ap, Bool, true, false, ◌==◌, if◌then◌else◌, Bool-cases, inl, inr, arith,
}
use roastery.Bytes.{Bytes, c_string}

pub record JdwpException : Type 0 where
  pub message : Bytes

-- `JdwpException(const std::string&)`, and `JdwpException(const char*)`, where `what_arg` is what
-- the pointer points into.
unfoldable pub from_string : Bytes → JdwpException
from_string what_arg = record { message = what_arg }

unfoldable pub from_c_string : Bytes → JdwpException
unfolding c_string
from_c_string what_arg = record { message = c_string what_arg }

-- The copy constructor.
unfoldable pub copy : JdwpException → JdwpException
copy other = record { message = other.message }

-- `what()`.
unfoldable pub what : JdwpException → Bytes
unfolding c_string
what this = c_string this.message

-- The exceptions of the program by their addresses.
abbrev pub Exceptions : Type 0
Exceptions = ℕ → JdwpException

-- `operator=`: `this` and `other` may be the same object, which is left alone then.
unfoldable pub assign_from : ℕ → ℕ → Exceptions → Exceptions
unfolding copy
assign_from this other store address =
    if this == other
    then store address
    else if address == this
    then copy (store other)
    else store address
