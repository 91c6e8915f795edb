-- ===== src/Parent/FramesEnds.antt =====
-- fws_parent_run: the loop over the messages comes to an end.
use facows.Types.{Conf}
use facows.Nft.{net_nft_dos_ban, ipv4_map_str}
use facows.Parent.{pipe_read, message_act, frames_loop, parent_event}
use facows.Mem.Text.{c_str}
use facows.Mem.TextEnds.{c_str-Ends}
use facows.Mem.Ends.{
  Ends, bind-Ends, map_run-Ends, if-Ends, option-Ends, memcmp-Ends, strnlen-Ends, copy-Ends,
  advance-Ends, deref-Ends, store-Ends, write-Ends,
}
use facows.Prelude.{ℕ, zero, suc, ◌+◌, ◌-◌, ◌<◌, List, [], ◌∷◌, arith, ◌==◌, length}
use facows.Mem.Run.{Bytes}
use facows.Mem.Libc.{memcmp, strnlen, copy, advance, deref, store, write, zeros}

net_nft_dos_ban-Ends : (conf : Conf) (ip : Bytes) (n : ℕ) → Ends (net_nft_dos_ban conf ip n)
unfolding net_nft_dos_ban
net_nft_dos_ban-Ends conf ip n =
    bind-Ends (memcmp ip ipv4_map_str 7) _ (memcmp-Ends ip ipv4_map_str 7) (λ mapped _.
      if-Ends mapped _ _
        (λ _.
          bind-Ends (advance ip 7) _ (advance-Ends ip 7)
            (λ p _. bind-Ends (c_str p) _ (c_str-Ends p) (λ _ _. tt)))
        (λ _. bind-Ends (c_str ip) _ (c_str-Ends ip) (λ _ _. tt)))

message_act-Ends : (conf : Conf) (p : Bytes) (n : ℕ) → Ends (message_act conf p n)
unfolding message_act
message_act-Ends conf p n = bind-Ends (deref p) _ (deref-Ends p) (λ header _.
    if-Ends (header == b'1') _ _
      (λ _. bind-Ends (advance p 1) _ (advance-Ends p 1) (λ ip _.
        bind-Ends (net_nft_dos_ban conf ip conf.ban_time) _
          (net_nft_dos_ban-Ends conf ip conf.ban_time) (λ _ _. tt)))
      (λ _.
        if-Ends (header == b'2') _ _
          (λ _.
            bind-Ends (advance p 1) _ (advance-Ends p 1)
              (λ line _. bind-Ends (copy line (n - 1)) _ (copy-Ends line (n - 1)) (λ _ _. tt)))
          (λ _. tt)))

pub frames_loop-Ends :
    (fuel : ℕ) (conf : Conf) (p : Bytes) (read_acc : ℕ)
    → read_acc < fuel
    → Ends (frames_loop fuel conf p read_acc)
unfolding frames_loop
frames_loop-Ends zero conf p read_acc h = absurd (omega arith)
frames_loop-Ends (suc fuel) conf p read_acc h =
    if-Ends (read_acc == 0) _ _ (λ _. tt)
      (λ some_left. bind-Ends (strnlen p read_acc) _ (strnlen-Ends p read_acc) (λ n _.
        bind-Ends (message_act conf p n) _ (message_act-Ends conf p n) (λ act _.
          option-Ends act _ _ tt (λ a.
            bind-Ends (advance p (n + 1)) _ (advance-Ends p (n + 1)) (λ q _.
              map_run-Ends _ (frames_loop fuel conf q (read_acc - (n + 1))) (
                frames_loop-Ends fuel conf q (read_acc - (n + 1))
                  (ground (arith, some_left, h))))))))

pipe_read-Ends : (reads : List Bytes) (buf : Bytes) (n : ℕ) → Ends (pipe_read reads buf n)
unfolding pipe_read
pipe_read-Ends [] buf n = bind-Ends (store buf n 0) _ (store-Ends buf n 0) (λ _ _. tt)
pipe_read-Ends (s ∷ reads) buf n =
    bind-Ends (write buf 0 s) _ (write-Ends buf 0 s) (λ b _. pipe_read-Ends reads b (n + length s))

-- An event of the pipe comes to an end, whatever is read from it.
parent_event-Ends : (conf : Conf) (reads : List Bytes) → Ends (parent_event conf reads)
unfolding parent_event
parent_event-Ends conf reads =
    bind-Ends (pipe_read reads (zeros 8192) 0) _ (pipe_read-Ends reads (zeros 8192) 0)
      (λ r _. frames_loop-Ends (suc r.1) conf r.0 r.1 (omega arith))
