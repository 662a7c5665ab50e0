-- ===== src/Usenet/Lists.antt =====
-- m_ready and m_busy of nntp/usenet.cc: which connections they hold.
use post2usenet.Common.{
  ℕ, ◌+◌, ◌≤◌, false, List, [], ◌∷◌, ◌++◌, ◌≡◌, inl, inr, refl, ◌∙◌, arith, if◌then◌else◌, ◌==◌,
  Bool-cases,
}
use post2usenet.Common.Result.{ok, ◌>>=◌, >>=-ok}
use post2usenet.Usenet.{
  Usenet, Command, set_conn, run_command, dispatch, park, shut_down, disconnect, disconnect_all,
  take_out,
}
use post2usenet.Usenet.Ready.{run_command-SameLists}

-- How often a connection is in a list.
unfoldable pub tally : ℕ → List ℕ → ℕ
tally it [] = 0
tally it (x ∷ xs) = (if x == it then 1 else 0) + tally it xs

pub tally-append : (it : ℕ) (xs ys : List ℕ) → tally it (xs ++ ys) ≡ tally it xs + tally it ys
unfolding tally
tally-append it [] ys = omega arith
tally-append it (x ∷ xs) ys = let rest = tally-append it xs ys in omega arith

-- An iterator that is taken out is there once less; no other iterator is touched.
pub tally-take_out :
    (it j : ℕ) (xs rest : List ℕ)
    → take_out it xs ≡ ok rest
    → tally j xs ≡ tally j (it ∷ []) + tally j rest
unfolding take_out tally
tally-take_out it j [] rest e = ground arith
tally-take_out it j (x ∷ xs) rest e = elim (Bool-cases (x == it)) [
  | inl same ↦ ground arith
  | inr other ↦
      let (left, outs, adds) = >>=-ok (take_out it xs) (λ r. ok (x ∷ r)) rest (took other) in
      let rec = tally-take_out it j xs left outs in ground arith
]
  where
    took : x == it ≡ false → take_out it xs >>= (λ r. ok (x ∷ r)) ≡ ok rest
    took other = ground arith

-- No list gains a connection, but from the other; no number is given out.
pub record Keeps (u u' : Usenet) : Type 0 where
  pub held : (it : ℕ) → tally it u'.ready + tally it u'.busy ≤ tally it u.ready + tally it u.busy
  pub next : u'.next_conn ≡ u.next_conn

pub Keeps-trans : (u v w : Usenet) → Keeps u v → Keeps v w → Keeps u w
Keeps-trans u v w h k = record {
  held = λ it. let a = h.held it in let b = k.held it in omega arith;
  next = k.next ∙ h.next;
}

-- What leaves both lists alone.
pub Keeps-same :
    (u u' : Usenet)
    → u'.ready ≡ u.ready
    → u'.busy ≡ u.busy
    → u'.next_conn ≡ u.next_conn
    → Keeps u u'
Keeps-same u u' same_ready same_busy same_next = record {
  held = λ it. ground arith;
  next = same_next;
}

pub run_command-Keeps :
    (u u' : Usenet) (it : ℕ) (cmd : Command) → run_command u it cmd ≡ ok u' → Keeps u u'
run_command-Keeps u u' it cmd e =
    let same = run_command-SameLists u u' it cmd e in
    Keeps-same u u' same.ready same.busy same.next_conn

pub dispatch-Keeps :
    (u u' : Usenet) (it : ℕ) (rest : List ℕ) (cmd : Command)
    → u.ready ≡ it ∷ rest
    → dispatch u it rest cmd ≡ ok u'
    → Keeps u u'
unfolding dispatch tally
dispatch-Keeps u u' it rest cmd at e =
    Keeps-trans u (record u { ready = rest; busy = it ∷ u.busy }) u'
      (record { held = λ j. rw at (omega arith); next = refl }) (run_command-Keeps _ u' it cmd e)

-- An iterator taken out of m_busy.
pub taken-Keeps :
    (u : Usenet) (it : ℕ) (busy' : List ℕ)
    → take_out it u.busy ≡ ok busy'
    → Keeps u (record u { busy = busy' })
unfolding tally
taken-Keeps u it busy' e = record {
  held = λ j. let out = tally-take_out it j u.busy busy' e in omega arith;
  next = refl;
}

disconnect-Keeps : (u u' : Usenet) (it : ℕ) → disconnect u it ≡ ok u' → Keeps u u'
unfolding disconnect set_conn
disconnect-Keeps u u' it e = Keeps-same u u' (ground arith) (ground arith) (ground arith)

disconnect_all-Keeps : (u u' : Usenet) (its : List ℕ) → disconnect_all u its ≡ ok u' → Keeps u u'
unfolding disconnect_all tally
disconnect_all-Keeps u u' [] e = record { held = λ it. ground arith; next = ground arith }
disconnect_all-Keeps u u' (it ∷ rest) e =
    let (u1, at_it, at_rest) = >>=-ok (disconnect u it) (λ x. disconnect_all x rest) u' e in
    Keeps-trans u u1 u' (disconnect-Keeps u u1 it at_it) (disconnect_all-Keeps u1 u' rest at_rest)

shut_down-Keeps : (u u' : Usenet) (it : ℕ) → shut_down u it ≡ ok u' → Keeps u u'
unfolding shut_down
shut_down-Keeps u u' it e =
    let (u1, gone, e1) = >>=-ok (disconnect u it) _ u' e in
    let (busy', out, e2) = >>=-ok (take_out it u1.busy) _ u' e1 in
    Keeps-trans u u1 u' (disconnect-Keeps u u1 it gone) (
      Keeps-trans u1 (record u1 { busy = busy' }) u' (taken-Keeps u1 it busy' out)
        (disconnect_all-Keeps _ u' u1.ready e2))

pub park-Keeps : (u u' : Usenet) (it : ℕ) → park u it ≡ ok u' → Keeps u u'
unfolding park tally
park-Keeps u u' it e =
    let (busy', out, parks) = >>=-ok (take_out it u.busy) _ u' e in
    let parked = record u { ready = u.ready ++ it ∷ []; busy = busy' } in
    let shuts = shut_down-Keeps parked u' it in
    Keeps-trans u parked u'
      (record {
        held = λ j.
            let taken = tally-take_out it j u.busy busy' out in
            let added = tally-append j u.ready (it ∷ []) in omega arith;
        next = refl;
      })
      (elim (Bool-cases u.work) [
        | inl works ↦ Keeps-same parked u' (ground arith) (ground arith) (ground arith)
        | inr stopped ↦ shuts (ground arith)
      ])
