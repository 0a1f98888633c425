-- ===== src/Client/Main.antt =====
-- `connect_to_server` and `main` of client/nervfs_client.c. The C library's `inet_pton`, `atoi` and
-- `strtol` (base 8) are parameters; the last two give the numbers after the casts to uint16_t and uint32_t.
use nerv_fs.Base.{
  ℕ, Bool, true, false, Option, none, some, List, [], ◌∷◌, Bytes, str_eq, if◌then◌else◌,
}
use nerv_fs.Os.{History, Env, socket, connect, close}
use nerv_fs.FileOps.Resolve.{codes}
use nerv_fs.Client.Exchange.{Shown, nothing}
use nerv_fs.Client.Listing.{do_list}
use nerv_fs.Client.Commands.{do_upload, do_download, do_delete, do_chmod}

pub record Libc : Type 0 where
  pub inet_pton : Bytes → Bool
  pub atoi : Bytes → ℕ
  pub strtol : Bytes → ℕ

-- After `connect`.
unfoldable pub connected : ℕ → Bool → History → Option ℕ × History
connected fd true h = (some fd, h)
connected fd false h = (none, close fd ∷ h)

-- After `socket`.
unfoldable pub socket_made : Env → Bool → ℕ → Option ℕ → History → Option ℕ × History
unfolding connected
socket_made env valid port none h = (none, h)
socket_made env valid port (some fd) h =
    if valid
    then connected fd (env.connect h fd port) (connect fd port (env.connect h fd port) ∷ h)
    else (none, close fd ∷ h)

unfoldable pub connect_to_server : Env → Libc → Bytes → ℕ → History → Option ℕ × History
unfolding socket_made
connect_to_server env libc host port h =
    socket_made env (libc.inet_pton host) port (env.socket h) (socket (env.socket h) ∷ h)

-- The commands with their arguments, `argv[3]` and on.
unfoldable pub run_command : Env → Libc → ℕ → List Bytes → History → Shown × History
run_command env libc fd (command ∷ []) h =
    if str_eq command (codes "list") then do_list env fd h else (nothing, h)
run_command env libc fd (command ∷ a ∷ []) h =
    if str_eq command (codes "list")
    then do_list env fd h
    else if str_eq command (codes "delete")
    then do_delete env fd a h
    else (nothing, h)
run_command env libc fd (command ∷ a ∷ b ∷ []) h =
    if str_eq command (codes "list")
    then do_list env fd h
    else if str_eq command (codes "upload")
    then do_upload env fd a b h
    else if str_eq command (codes "download")
    then do_download env fd a b h
    else if str_eq command (codes "chmod")
    then do_chmod env fd a (libc.strtol b) h
    else (nothing, h)
run_command env libc fd (command ∷ a ∷ b ∷ c ∷ more) h =
    if str_eq command (codes "list") then do_list env fd h else (nothing, h)
run_command env libc fd [] h = (nothing, h)

-- `close` of the connection after the command.
unfoldable pub ended : ℕ → Shown × History → Shown × History
ended fd (s, h) = (s, close fd ∷ h)

unfoldable pub command_connected : Env → Libc → List Bytes → Option ℕ × History → Shown × History
unfolding run_command ended
command_connected env libc args (none, h) = (nothing, h)
command_connected env libc args (some fd, h) = ended fd (run_command env libc fd args h)

-- `argv` without the program's name.
unfoldable pub client_main : Env → Libc → List Bytes → History → Shown × History
unfolding connect_to_server command_connected
client_main env libc (host ∷ port ∷ command ∷ args) h =
    command_connected env libc (command ∷ args) (connect_to_server env libc host (libc.atoi port) h)
client_main env libc _ h = (nothing, h)
