-- ===== src/Parent.antt =====
-- fws_parent_run of src/fws.c: the messages that the children write into the pipe, as the parent
-- takes them apart.
pub mod Frames
pub mod FramesEnds
pub mod Watch
pub mod Stream
use facows.Types.{Conf}
use facows.Nft.{net_nft_dos_ban}
use facows.Prelude.{
  ℕ, zero, suc, ◌+◌, ◌-◌, Option, none, some, List, [], ◌∷◌, ◌==◌, if◌then◌else◌, length,
}
use facows.Mem.Run.{Run, ok, out_of_fuel, ◌>>=◌, map_run, Bytes}
use facows.Mem.Libc.{strnlen, copy, advance, deref, store, write, zeros}

-- What the parent does for a message: a command for the net filter, or a line of the log.
pub data Act : Type 0 where
  run_nft : Bytes → Act
  write_log : Bytes → Act

-- The inner loop of reads: each one stores its bytes at the start of read_buf, and read_acc counts all
-- of them. The list holds what the calls of read give until the pipe is empty.
unfoldable pub pipe_read : List Bytes → Bytes → ℕ → Run (Bytes × ℕ)
pipe_read [] read_buf read_acc = store read_buf read_acc 0 >>= λ read_buf. ok (read_buf, read_acc)
pipe_read (s ∷ reads) read_buf read_acc =
    write read_buf 0 s >>= λ read_buf. pipe_read reads read_buf (read_acc + length s)

-- The message at `p`, of `n` bytes, by its first byte; none is an unknown header.
unfoldable pub message_act : Conf → Bytes → ℕ → Run (Option Act)
message_act conf p n = deref p >>= λ header.
    if header == b'1'
    then (advance p 1 >>= λ ip_buf.
        net_nft_dos_ban conf ip_buf conf.ban_time >>= λ cmd. ok (some (run_nft cmd)))
    else if header == b'2'
    then (advance p 1 >>= λ line. copy line (n - 1) >>= λ s. ok (some (write_log s)))
    else ok none

-- The loop over the messages, with what is done for each. A round moves on by a byte at least.
unfoldable pub frames_loop : ℕ → Conf → Bytes → ℕ → Run (List Act)
frames_loop zero conf p read_acc = out_of_fuel
frames_loop (suc fuel) conf p read_acc =
    if read_acc == 0
    then ok []
    else (strnlen p read_acc >>= λ n. message_act conf p n >>= λ act. elim act [
      | none ↦ ok []
      | some a ↦
          advance p (n + 1) >>= λ p. map_run (◌∷◌ a) (frames_loop fuel conf p (read_acc - (n + 1)))
    ])

-- An event of the pipe: all that can be read, and what is done for it.
unfoldable pub parent_event : Conf → List Bytes → Run (List Act)
parent_event conf reads = pipe_read reads (zeros 8192) 0 >>= λ r. frames_loop (suc r.1) conf r.0 r.1
