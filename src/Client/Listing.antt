-- ===== src/Client/Listing.antt =====
-- `do_list` of client/nervfs_client.c.
use nerv_fs.Base.{
  ℕ, zero, suc, ◌+◌, ◌%◌, ◌^◌, Option, none, some, List, [], ◌∷◌, ◌>>=◌, Bytes, ltb, ◌==◌,
  if◌then◌else◌,
}
use nerv_fs.Os.{History, Env}
use nerv_fs.Wire.{read_u16, read_u32, read_u64}
use nerv_fs.Wire.Buffer.{load}
use nerv_fs.Protocol.{op_req_list, op_resp_list_data}
use nerv_fs.Protocol.Header.{Header}
use nerv_fs.Protocol.Transfer.{Sent, sent}
use nerv_fs.FileOps.Resolve.{c_str}
use nerv_fs.FileOps.Listing.{Dirent}
use nerv_fs.Client.Exchange.{
  Shown, listing, nothing, hanging, send_request, read_response_header, recv_body, shown_or_faulty,
  print_simple_result,
}

-- The copy of a name into a buffer of 256 bytes, with a NUL behind it, and what `printf` prints of it.
unfoldable pub entry_name : Bytes → ℕ → ℕ → Option Bytes
entry_name buf off nlen = do
  name ← if ltb 255 nlen then none else load buf off nlen
  some (c_str name)

-- `count` rounds of the loop; `off` is of type uint32_t.
unfoldable pub decode_entries : ℕ → ℕ → Bytes → Option (List Dirent)
unfolding entry_name
decode_entries zero off buf = some []
decode_entries (suc count) off buf = do
  nlen ← read_u16 buf off
  name ← entry_name buf ((off + 2) % 2 ^ 32) nlen
  size ← read_u64 buf ((off + 2 + nlen) % 2 ^ 32)
  mode ← read_u32 buf ((off + 2 + nlen + 8) % 2 ^ 32)
  entries ← decode_entries count ((off + 2 + nlen + 8 + 4) % 2 ^ 32) buf
  some (record { name = name; size = size; mode = mode } ∷ entries)

unfoldable pub show_listing : ℕ → Option Bytes → Shown
unfolding decode_entries
show_listing elapsed_us none = nothing
show_listing elapsed_us (some buf) = shown_or_faulty do
  count ← read_u32 buf 0
  entries ← decode_entries count 4 buf
  some (listing count elapsed_us entries)

unfoldable pub list_body : Env → ℕ → Header → History → Shown × History
unfolding show_listing
list_body env fd resp h =
    let r = recv_body env fd resp.payload_len h in (show_listing resp.reserved r.0, r.1)

unfoldable pub list_answered : Env → ℕ → Option Header × History → Shown × History
unfolding list_body
list_answered env fd (none, h) = (nothing, h)
list_answered env fd (some resp, h) =
    if resp.opcode == op_resp_list_data
    then list_body env fd resp h
    else print_simple_result env fd resp h

unfoldable pub list_requested : Env → ℕ → Sent × History → Shown × History
unfolding list_answered
list_requested env fd (Sent.failed, h) = (nothing, h)
list_requested env fd (Sent.spinning, h) = (hanging, h)
list_requested env fd (sent n, h) = list_answered env fd (read_response_header env fd h)

unfoldable pub do_list : Env → ℕ → History → Shown × History
unfolding list_requested
do_list env fd h = list_requested env fd (send_request env fd op_req_list [] 0 h)
