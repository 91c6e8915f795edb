-- ===== src/Limit/Slots.antt =====
-- The table of clients: which entry a request uses, and what it leaves alone.
use facows.Types.{Conf, Nft}
use facows.Limit.{Verdict, same_ip, empty_ip, slot_find, blank_nft, limit_check, limit_request}
use facows.Prelude.{
  ℕ, zero, suc, ◌+◌, ◌<◌, ◌≡◌, refl, sym, ap, ◌∙◌, ◌≢◌, ◌⊎◌, inl, inr, Bool, true, false, List, [],
  ◌∷◌, arith, Bool-cases, length, get_or, replicate, length-set, get_or-set_self, get_or-set_ne,
}
use facows.Mem.Run.{Bytes}
use facows.Mem.Libc.{zeros}

pub same_ip-eq : (a b : Bytes) → same_ip a b ≡ true → a ≡ b
unfolding same_ip
same_ip-eq [] [] h = refl
same_ip-eq [] (y ∷ b) h = absurd (cc)
same_ip-eq (x ∷ a) [] h = absurd (cc)
same_ip-eq (x ∷ a) (y ∷ b) h = ground (arith, same_ip-eq a b)

pub same_ip_refl : (a : Bytes) → same_ip a a ≡ true
unfolding same_ip
same_ip_refl [] = refl
same_ip_refl (x ∷ a) = ground (arith, same_ip_refl a)

-- The client has an entry, or there is a free one.
abbrev pub HasSlot : Bytes → List Nft → Type 0
HasSlot ip [] = ⊥
HasSlot ip (e ∷ t) =
    (same_ip e.ip_buf ip ≡ true) ⊎ (same_ip e.ip_buf empty_ip ≡ true) ⊎ HasSlot ip t

-- What is used of an entry: it is the client's, or it is free.
abbrev Usable : Bytes → Nft → Type 0
Usable ip e = (e.ip_buf ≡ ip) ⊎ (e.ip_buf ≡ replicate 16 0)

-- What the search gives from index `i` on: the first entry that is the client's or free, with the counters that stood there,
-- and all others as they were.
record Slot (ip : Bytes) (t : List Nft) (i : ℕ) (r : ℕ × List Nft) : Type 0 where
  k : ℕ
  index : r.0 ≡ i + k
  bound : k < length t
  chosen : Usable ip (get_or t k blank_nft)
  first : (j : ℕ) → j < k → ¬ Usable ip (get_or t j blank_nft)
  size : length r.1 ≡ length t
  owned : get_or r.1 k blank_nft ≡ record (get_or t k blank_nft) { ip_buf = ip }
  others : (j : ℕ) → j ≢ k → get_or r.1 j blank_nft ≡ get_or t j blank_nft

same_ip_no : (a b : Bytes) → same_ip a b ≡ false → a ≢ b
same_ip_no a b h e =
    let yes : same_ip a a ≡ true = same_ip_refl a in
    let no : same_ip a a ≡ false = ap (same_ip a) e ∙ h in absurd (cc)

empty_is : empty_ip ≡ replicate 16 0
unfolding zeros
empty_is = refl

not-Usable :
    (ip : Bytes) (e : Nft)
    → same_ip e.ip_buf ip ≡ false
    → same_ip e.ip_buf empty_ip ≡ false
    → ¬ Usable ip e
not-Usable ip e a b (inl own) = same_ip_no e.ip_buf ip a own
not-Usable ip e a b (inr free) = same_ip_no e.ip_buf empty_ip b (free ∙ sym empty_is)

first_tail :
    (ip : Bytes) (e : Nft) (t : List Nft) (k : ℕ)
    → ¬ Usable ip e
    → ((j : ℕ) → j < k → ¬ Usable ip (get_or t j blank_nft))
    → (j : ℕ) → j < suc k
    → ¬ Usable ip (get_or (e ∷ t) j blank_nft)
first_tail ip e t k n h zero l = n
first_tail ip e t k n h (suc j) l = h j (omega (arith, l))

others_head :
    (d e : Nft) (t : List Nft) (j : ℕ)
    → j ≢ 0
    → get_or (d ∷ t) j blank_nft ≡ get_or (e ∷ t) j blank_nft
others_head d e t zero n = absurd (n refl)
others_head d e t (suc j) n = refl

others_tail :
    (e : Nft) (s t : List Nft) (k : ℕ)
    → ((j : ℕ) → j ≢ k → get_or s j blank_nft ≡ get_or t j blank_nft)
    → (j : ℕ) → j ≢ suc k
    → get_or (e ∷ s) j blank_nft ≡ get_or (e ∷ t) j blank_nft
others_tail e s t k h zero n = refl
others_tail e s t k h (suc j) n = h j (omega arith)

Slot-suc :
    {ip : Bytes} {t : List Nft} {i : ℕ} {r : ℕ × List Nft} (e : Nft)
    → ¬ Usable ip e
    → Slot ip t (i + 1) r
    → Slot ip (e ∷ t) i (r.0, e ∷ r.1)
Slot-suc {ip} {t} {r} e n s = record {
  k = suc s.k;
  index = omega (arith, s.index);
  bound = omega (arith, s.bound);
  chosen = s.chosen;
  first = first_tail ip e t s.k n s.first;
  size = omega (arith, s.size);
  owned = s.owned;
  others = others_tail e r.1 t s.k s.others;
}

Slot-here :
    {ip : Bytes} (d e : Nft) (t : List Nft) (i : ℕ)
    → Usable ip e
    → d ≡ record e { ip_buf = ip }
    → Slot ip (e ∷ t) i (i, d ∷ t)
Slot-here d e t i u q = record {
  k = 0;
  index = omega arith;
  bound = omega arith;
  chosen = u;
  first = λ j l. absurd (omega (arith, l));
  size = refl;
  owned = q;
  others = others_head d e t;
}

left :
    (ip : Bytes) (e : Nft) (t : List Nft)
    → same_ip e.ip_buf ip ≡ false
    → same_ip e.ip_buf empty_ip ≡ false
    → HasSlot ip (e ∷ t)
    → HasSlot ip t
left ip e t a b (inl h) = absurd (cc)
left ip e t a b (inr (inl h)) = absurd (cc)
left ip e t a b (inr (inr h)) = h

slot_find-Slot :
    (t : List Nft) (ip : Bytes) (i last : ℕ) → HasSlot ip t → Slot ip t i (slot_find t ip i last)
unfolding slot_find
slot_find-Slot [] ip i last h = absurd h
slot_find-Slot (e ∷ t) ip i last h = elim (Bool-cases (same_ip e.ip_buf ip)) [
  | inl own ↦ rw own (
      Slot-here e e t i (inl (same_ip-eq e.ip_buf ip own))
        (ground (arith, same_ip-eq e.ip_buf ip own)))
  | inr other ↦ elim (Bool-cases (same_ip e.ip_buf empty_ip)) [
    | inl free ↦
        rw (other, free)
          (Slot-here (record e { ip_buf = ip }) e t i
            (inr (same_ip-eq e.ip_buf empty_ip free ∙ empty_is)) refl)
    | inr taken ↦
        rw (other, taken)
          (Slot-suc e (not-Usable ip e other taken)
            (slot_find-Slot t ip (i + 1) i (left ip e t other taken h)))
  ]
]

-- What a request does to the table: entry `k` is the first one that is the client's or free; it is
-- checked with the counters that stood there; every other entry stays.
pub record Served (conf : Conf) (ip : Bytes) (is_html : Bool) (status_code : ℕ) (t : List Nft)
    (r : Verdict × List Nft) : Type 0 where
  pub k : ℕ
  pub bound : k < length t
  pub chosen :
      ((get_or t k blank_nft).ip_buf ≡ ip) ⊎ ((get_or t k blank_nft).ip_buf ≡ replicate 16 0)
  pub first :
      (j : ℕ)
      → j < k
      → ¬ (((get_or t j blank_nft).ip_buf ≡ ip) ⊎ ((get_or t j blank_nft).ip_buf ≡ replicate 16 0))
  pub size : length r.1 ≡ length t
  pub checked :
      r.0 ≡ limit_check conf is_html status_code (record (get_or t k blank_nft) { ip_buf = ip })
  pub entry : let v = r.0 in get_or r.1 k blank_nft ≡ v.entry
  pub others : (j : ℕ) → j ≢ k → get_or r.1 j blank_nft ≡ get_or t j blank_nft

-- While the client has an entry, or there is a free one, a request is checked with the counters of the
-- first entry that holds the client's address or no address, which takes the client's address; what the
-- check leaves stands in that entry, and all others stay as they were.
pub limit_request-Served :
    (conf : Conf) (ip : Bytes) (is_html : Bool) (status_code : ℕ) (t : List Nft)
    → HasSlot ip t
    → Served conf ip is_html status_code t (limit_request conf ip is_html status_code t)
unfolding limit_request
limit_request-Served conf ip is_html status_code t h =
    let s = slot_find-Slot t ip 0 0 h in
    let claimed = (slot_find t ip 0 0).1 in
    let at : (slot_find t ip 0 0).0 ≡ s.k = omega (arith, s.index) in
    let v = limit_check conf is_html status_code (get_or claimed s.k blank_nft) in
    rw at (record {
      k = s.k;
      bound = s.bound;
      chosen = s.chosen;
      first = s.first;
      size = length-set claimed s.k v.entry ∙ s.size;
      checked = ap (limit_check conf is_html status_code) s.owned;
      entry = get_or-set_self claimed s.k v.entry blank_nft (omega (arith, s.bound, s.size));
      others = λ j n. get_or-set_ne claimed v.entry blank_nft (λ e. n (sym e)) ∙ s.others j n;
    })
