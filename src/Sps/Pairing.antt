-- ===== src/Sps/Pairing.antt =====
-- Who is in a call after `client_startcalls` of utils/sps.c.
use mathlib.Core.Path.{subst}
use sphone.Prelude.Words.{u32}
use sphone.Prelude.{
  if-holds, ℕ, zero, suc, ◌%◌, ◌≡◌, refl, sym, ap, ◌∙◌, ◌≢◌, ◌⊎◌, inl, inr, true, false, ◌&&◌, ◌==◌,
  ltb, Bool-cases, if◌then◌else◌, Option, none, some, List, [], ◌∷◌, length, get_elem?, arith,
}
use sphone.TimeVal.{TimeVal}
use sphone.Wire.{some-eq}
use sphone.EventLoop.{Loop, eventloop_reg_timeout}
use sphone.Sp.{SpType, start_send, start_rcv}
use sphone.Sps.{CfEntry, Server, Outcome, ok, aborted, Net, cs_send, cs_rcv, entry_at, update}
use sphone.Sps.Table.{In, Distinct, KeepsAddr, In-entry_at, All-In}
use sphone.Sps.Calls.{
  is_idle, client_output, pick_other, next_call, busy, commit_call, output_rcv, connect_clients,
  call_clients, after_call, call_pair, call_indices, client_startcalls,
}

pub entry_at-update :
    (k a : ℕ) (f : CfEntry → CfEntry) (l : List CfEntry) (c : CfEntry)
    → KeepsAddr f
    → entry_at a l ≡ some c
    → entry_at k (update a f l) ≡ (if k == a then some (f c) else entry_at k l)
unfolding entry_at update
entry_at-update k a f [] c keep h = cc
entry_at-update k a f (x ∷ rest) c keep h = elim (Bool-cases (a == x.addr)) [
  | inl t ↦
      let same : some x ≡ some c = rw t at h in
      rw (t) (ground (arith, t, ap (λ (y : CfEntry). some (f y)) (some-eq same), keep x))
  | inr n ↦
      let later : entry_at a rest ≡ some c = rw n at h in
      rw n (ground (arith, n, entry_at-update k a f rest c keep later))
]

get_elem?-In : (l : List CfEntry) (i : ℕ) (c : CfEntry) → get_elem? l i ≡ some c → In c l
get_elem?-In [] i c h = cc
get_elem?-In (x ∷ rest) zero c h = inl (cc h)
get_elem?-In (x ∷ rest) (suc i) c h = inr (get_elem?-In rest i c h)

-- Two places of the list hold two entries.
get_elem?-apart :
    (l : List CfEntry) (i j : ℕ) (a b : CfEntry)
    → Distinct l
    → i ≢ j
    → get_elem? l i ≡ some a
    → get_elem? l j ≡ some b
    → a.addr ≢ b.addr
get_elem?-apart [] i j a b d ne ha hb = cc
get_elem?-apart (x ∷ rest) zero zero a b d ne ha hb = absurd (ne refl)
get_elem?-apart (x ∷ rest) zero (suc j) a b (d, ds) ne ha hb =
    let other = All-In (λ y. y.addr ≢ x.addr) b rest d (get_elem?-In rest j b hb) in
    λ e. other (sym e ∙ sym (ap (λ (c : CfEntry). c.addr) (some-eq ha)))
get_elem?-apart (x ∷ rest) (suc i) zero a b (d, ds) ne ha hb =
    let other = All-In (λ y. y.addr ≢ x.addr) a rest d (get_elem?-In rest i a ha) in
    λ e. other (e ∙ sym (ap (λ (c : CfEntry). c.addr) (some-eq hb)))
get_elem?-apart (x ∷ rest) (suc i) (suc j) a b (d, ds) ne ha hb =
    get_elem?-apart rest i j a b ds (λ e. ne (ap suc e)) ha hb

module _ {W : Type 0} (io : Net W) where
  -- The random choice of the second client differs from the first and is in range.
  pub pick_other-apart :
      (tries i nr j : ℕ) (w : W) → (pick_other io tries i nr w).0 ≡ some j → i ≢ j
  unfolding pick_other
  pick_other-apart zero i nr j w h = cc
  pick_other-apart (suc tries) i nr j w h =
      ground (arith, pick_other-apart tries i nr j (io.random w).1)

  -- No call is started, or one between two idle clients, each of which has the other for its peer; the entries of
  -- all others stand.
  abbrev pub Paired : List CfEntry → List CfEntry → Type 0
  Paired before after =
      (after ≡ before)
      ⊎ ((a b : CfEntry) × In a before
          × In b before
          × (a.addr ≢ b.addr)
          × (is_idle a.cf_state ≡ true)
          × (is_idle b.cf_state ≡ true)
          × ((k : ℕ)
              → entry_at k after ≡ (
                  if k == b.addr
                  then some (record b { cf_state = cs_rcv; cf_peer = a.cf_id })
                  else (if k == a.addr
                      then some (record a { cf_state = cs_send; cf_peer = b.cf_id })
                      else entry_at k before))))

  -- What the two writes of `client_startcalls` do
  paired_by :
      (a b : CfEntry) (l : List CfEntry)
      → Distinct l
      → In a l
      → In b l
      → a.addr ≢ b.addr
      → (k : ℕ)
      → entry_at k
          (update b.addr (busy io cs_rcv a.cf_id) (update a.addr (busy io cs_send b.cf_id) l))
        ≡ (if k == b.addr
            then some (record b { cf_state = cs_rcv; cf_peer = a.cf_id })
            else (if k == a.addr
                then some (record a { cf_state = cs_send; cf_peer = b.cf_id })
                else entry_at k l))
  paired_by a b l d ma mb ne k =
      let f = busy io cs_send b.cf_id in
      let first = λ (j : ℕ). entry_at-update j a.addr f l a (λ c. refl) (In-entry_at a l d ma) in
      let apart : (b.addr == a.addr) ≡ false =
        ground (arith, λ (e : b.addr ≡ a.addr). ne (sym e)) in
      let there : entry_at b.addr (update a.addr f l) ≡ some b =
        first b.addr ∙ rw apart (In-entry_at b l d mb) in
      entry_at-update k b.addr (busy io cs_rcv a.cf_id) (update a.addr f l) b (λ c. refl) there
      ∙ ap (λ o. if k == b.addr then some (busy io cs_rcv a.cf_id b) else o) (first k)

  client_output-list :
      (a b : CfEntry) (type : SpType) (d : TimeVal) (n : ℕ) (l : Loop (Server W))
      → (client_output io a b type d n l).1.world.cf_list ≡ l.world.cf_list
  unfolding client_output
  client_output-list a b type d n l = ground arith

  -- The list stands, or the two writes have been made.
  abbrev Called : CfEntry → CfEntry → List CfEntry → List CfEntry → Type 0
  Called a b before after =
      (after ≡ before)
      ⊎ (after
          ≡ update b.addr (busy io cs_rcv a.cf_id) (update a.addr (busy io cs_send b.cf_id) before))

  commit_call-Called :
      (r : Outcome) (a b : CfEntry) (l : Loop (Server W))
      → Called a b l.world.cf_list (commit_call io r a b l).1.world.cf_list
  unfolding commit_call
  commit_call-Called ok a b l = inr refl
  commit_call-Called _ a b l = inl refl

  output_rcv-Called :
      (r : Outcome) (a b : CfEntry) (d : TimeVal) (n : ℕ) (l : Loop (Server W))
      → Called a b l.world.cf_list (output_rcv io r a b d n l).1.world.cf_list
  unfolding output_rcv
  output_rcv-Called ok a b d n l =
      subst (λ before. Called a b before (output_rcv io ok a b d n l).1.world.cf_list)
        (client_output-list b a start_rcv d n l)
        (commit_call-Called _ a b (client_output io b a start_rcv d n l).1)
  output_rcv-Called _ a b d n l = inl refl

  connect_clients-Called :
      (a b : CfEntry) (d : TimeVal) (l : Loop (Server W))
      → Called a b l.world.cf_list (connect_clients io a b d l).1.world.cf_list
  unfolding connect_clients
  connect_clients-Called a b d l =
      let l1 : Loop (Server W) = record l {
        world = record l.world { test_id = u32 (suc l.world.test_id) };
      } in
      let sent : Loop (Server W) = (client_output io a b start_send d l.world.test_id l1).1 in
      subst (λ before. Called a b before (connect_clients io a b d l).1.world.cf_list)
        (client_output-list a b start_send d l.world.test_id l1)
        (output_rcv-Called _ a b d l.world.test_id sent)

  call_clients-Paired :
      (a b : CfEntry) (l : Loop (Server W))
      → Distinct l.world.cf_list
      → In a l.world.cf_list
      → In b l.world.cf_list
      → a.addr ≢ b.addr
      → Paired l.world.cf_list (call_clients io a b l).1.world.cf_list
  unfolding call_clients
  call_clients-Paired a b l d ma mb ne =
      elim (Bool-cases (is_idle a.cf_state && is_idle b.cf_state)) [
        | inr busy_one ↦ rw busy_one (inl refl)
        | inl idle ↦ rw idle (elim (connect_clients-Called a b _ _) [
          | inl e ↦ inl e
          | inr e ↦ inr (
            a,
            b,
            ma,
            mb,
            ne,
            ground (arith, idle),
            ground (arith, idle),
            λ k. ap (entry_at k) e ∙ paired_by a b l.world.cf_list d ma mb ne k,
          )
        ])
      ]

  after_call-list :
      (nr : ℕ) (r : Outcome) (l : Loop (Server W))
      → (after_call io nr r l).1.world.cf_list ≡ l.world.cf_list
  unfolding after_call next_call eventloop_reg_timeout
  after_call-list nr aborted l = refl
  after_call-list nr _ l = refl

  call_pair-Paired :
      (nr : ℕ) (p q : Option CfEntry) (l : Loop (Server W))
      → Distinct l.world.cf_list
      → ((a b : CfEntry)
          → p ≡ some a
          → q ≡ some b
          → In a l.world.cf_list × In b l.world.cf_list × (a.addr ≢ b.addr))
      → Paired l.world.cf_list (call_pair io nr p q l).1.world.cf_list
  unfolding call_pair
  call_pair-Paired nr (some a) (some b) l d h =
      let (ma, mb, ne) = h a b refl refl in
      subst (Paired l.world.cf_list)
        (sym (after_call-list nr (call_clients io a b l).0 (call_clients io a b l).1))
        (call_clients-Paired a b l d ma mb ne)
  call_pair-Paired nr none _ l d h = inl refl
  call_pair-Paired nr (some a) none l d h = inl refl

  call_indices-Paired :
      (nr i : ℕ) (o : Option ℕ) (l : Loop (Server W))
      → Distinct l.world.cf_list
      → ((j : ℕ) → o ≡ some j → i ≢ j)
      → Paired l.world.cf_list (call_indices io nr i o l).1.world.cf_list
  unfolding call_indices
  call_indices-Paired nr i none l d h = inl refl
  call_indices-Paired nr i (some j) l d h =
      let cfs = l.world.cf_list in
      call_pair-Paired nr (get_elem? cfs i) (get_elem? cfs j) l d (λ a b ea eb. (
        get_elem?-In cfs i a ea,
        get_elem?-In cfs j b eb,
        get_elem?-apart cfs i j a b d (h j refl) ea eb,
      ))

  -- `client_startcalls` changes nothing in the list, or it makes a call between two idle clients that are not the
  -- same, the one sending and the other receiving, each with the number of the other; every other entry stands.
  pub client_startcalls-Paired :
      (tries : ℕ) (l : Loop (Server W))
      → Distinct l.world.cf_list
      → Paired l.world.cf_list (client_startcalls io tries l).1.world.cf_list
  unfolding client_startcalls next_call eventloop_reg_timeout
  client_startcalls-Paired tries l d =
      let before = l.world.cf_list in
      let P = λ (r : Outcome × Loop (Server W)). Paired before r.1.world.cf_list in
      let i = (io.random l.world.net).0 % length before in
      if-holds P l.world.is_freed (inl refl) (
        if-holds P (ltb (length before) 2) (inl refl)
          (call_indices-Paired _ i _ _ d (λ j e. pick_other-apart tries i (length before) j _ e)))
