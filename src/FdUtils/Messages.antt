-- ===== src/FdUtils/Messages.antt =====
-- The functions of FdUtils.h that print, as the bytes that they print.
use Prim.Native.Char.{code}
use Prim.Native.String.{String}
use plib.Base.{ℕ, List, [], ◌∷◌, ◌++◌, Option, none, some}
use plib.FdUtils.Time.{printed}

abbrev bytes : String → List ℕ
bytes String.[] = []
bytes (String.◌∷◌ c s) = code c ∷ bytes s

unfoldable pub signal_callback_handler : ℕ → List ℕ
signal_callback_handler signum = bytes "Caught signal SIGPIPE " ++ (printed 1 signum ++ b'\n' ∷ [])

-- The error that getsockopt finds, if it does not fail, and the text of strerror are arguments.
unfoldable pub print_socket_err_reason : (ℕ → Option ℕ) → (ℕ → List ℕ) → ℕ → List ℕ
print_socket_err_reason getsockopt strerror sockfd = elim (getsockopt sockfd) [
  | none ↦ []
  | some error ↦ bytes "error = " ++ (strerror error ++ b'\n' ∷ [])
]
