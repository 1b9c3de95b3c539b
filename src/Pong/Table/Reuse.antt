-- ===== src/Pong/Table/Reuse.antt =====
-- Which connection `persistent_connect` of pset6/pong61.c returns, and what it does to its table.
use cs61_f16_psets_team_md.Base.{
  ℕ, suc, ◌+◌, ◌≡◌, refl, sym, ap, subst, ◌∙◌, arith, inl, inr, Bool-cases, true, false,
  if◌then◌else◌, List, [], ◌∷◌, ◌++◌, length, All, append-nil,
}
use cs61_f16_psets_team_md.Pong.Response.{Connection, request}
use cs61_f16_psets_team_md.Pong.Table.{
  Table, http_connect, is_finished, is_broken, Search, pass_node, search_table, connect_found,
  persistent_connect,
}

abbrev pub IsBusy : Connection → Type 0
IsBusy c = is_finished c.state ≡ false

abbrev pub IsUsable : Connection → Type 0
IsUsable c = is_broken c.state ≡ false

abbrev pub count_broken : List Connection → ℕ
count_broken [] = 0
count_broken (c ∷ cs) = if is_broken c.state then suc (count_broken cs) else count_broken cs

-- What the nodes before the first finished one should become: a broken one gets a connection on a
-- new socket, `socket n` for the nth, and the others stay.
unfoldable pub reconnected : (ℕ → ℕ) → Connection → ℕ → List Connection → List Connection
reconnected socket memory opened [] = []
reconnected socket memory opened (c ∷ cs) =
    if is_broken c.state
    then record memory { fd = socket opened; state = request; eof = false }
      ∷ reconnected socket memory (opened + 1) cs
    else c ∷ reconnected socket memory opened cs

-- The search passes the busy nodes `before`, and repairs the broken ones.
pub record Passed (socket : ℕ → ℕ) (memory : Connection) (before : List Connection) (opened : ℕ)
    (found : List Connection) (s : Search) : Type 0 where
  pub stops : s.found ≡ found
  pub connects : s.opened ≡ opened + count_broken before
  pub as_many : length s.past ≡ length before
  pub repaired : All IsUsable s.past
  pub replaced : s.past ≡ reconnected socket memory opened before

search_table-Passed :
    (socket : ℕ → ℕ) (memory : Connection) (before found : List Connection) (opened : ℕ)
    → All IsBusy before
    → ((o : ℕ)
        → search_table socket memory found o ≡ record { past = []; found = found; opened = o })
    → Passed socket memory before opened found (search_table socket memory (before ++ found) opened)
unfolding search_table pass_node http_connect reconnected
search_table-Passed socket memory [] found opened h stop = rw (stop opened) (record {
  stops = refl;
  connects = omega arith;
  as_many = refl;
  repaired = tt;
  replaced = refl;
})
search_table-Passed socket memory (c ∷ before) found opened h stop =
    elim (Bool-cases (is_broken c.state)) [
      | inl e ↦
          let counted : count_broken (c ∷ before) ≡ suc (count_broken before) = rw e refl in
          let p = search_table-Passed socket memory before found (opened + 1) h.1 stop in
          rw (e, h.0)
            (record {
              stops = p.stops;
              connects = omega (arith, p.connects, counted);
              as_many = ap suc p.as_many;
              repaired = (refl, p.repaired);
              replaced = rw e (ap (◌∷◌ (http_connect socket memory opened)) p.replaced);
            })
      | inr e ↦
          let counted : count_broken (c ∷ before) ≡ count_broken before = rw e refl in
          let p = search_table-Passed socket memory before found opened h.1 stop in
          rw (e, h.0)
            (record {
              stops = p.stops;
              connects = omega (arith, p.connects, counted);
              as_many = ap suc p.as_many;
              repaired = (e, p.repaired);
              replaced = rw e (ap (◌∷◌ c) p.replaced);
            })
    ]

-- A call has returned `c`, and the table has new connections in the place of broken ones before it.
pub record Reused (socket : ℕ → ℕ) (memory : Connection) (before : List Connection) (c : Connection)
    (after : List Connection) (opened : ℕ) (r : Connection × Table) : Type 0 where
  pub returns : r ≡ (
    c,
    record {
      connections = reconnected socket memory opened before ++ c ∷ after;
      opened = opened + count_broken before;
    },
  )
  pub as_many : length (reconnected socket memory opened before) ≡ length before
  pub repaired : All IsUsable (reconnected socket memory opened before)

search_table-stop :
    (socket : ℕ → ℕ) (memory c : Connection) (cs : List Connection)
    → is_finished c.state ≡ true
    → (o : ℕ)
    → search_table socket memory (c ∷ cs) o ≡ record { past = []; found = c ∷ cs; opened = o }
unfolding search_table
search_table-stop socket memory c cs e o = rw e refl

connect_found-cons :
    (socket : ℕ → ℕ) (memory c : Connection) (cs : List Connection) (s : Search) (n : ℕ)
    → s.found ≡ c ∷ cs
    → s.opened ≡ n
    → connect_found socket memory s ≡ (c, record { connections = s.past ++ c ∷ cs; opened = n })
unfolding connect_found
connect_found-cons socket memory c cs s n e e' = rw (e, e') refl

connect_found-nil :
    (socket : ℕ → ℕ) (memory : Connection) (s : Search) (n : ℕ)
    → s.found ≡ []
    → s.opened ≡ n
    → connect_found socket memory s ≡ (
      http_connect socket memory n,
      record { connections = http_connect socket memory n ∷ []; opened = n + 1 },
    )
unfolding connect_found
connect_found-nil socket memory s n e e' = rw (e, e') refl

-- Where the table has a finished connection, `persistent_connect` returns the first one and leaves
-- it in its place. Each broken node before it has a connection on a new socket, the others stay,
-- and so none before it is broken. All calls of `http_connect` succeed.
pub persistent_connect-Reused :
    (socket : ℕ → ℕ) (memory : Connection) (before : List Connection) (c : Connection)
    (after : List Connection) (opened : ℕ)
    → All IsBusy before
    → is_finished c.state ≡ true
    → Reused socket memory before c after opened (
        persistent_connect socket memory
          (record { connections = before ++ c ∷ after; opened = opened }))
unfolding persistent_connect
persistent_connect-Reused socket memory before c after opened h e =
    let p =
      search_table-Passed socket memory before (c ∷ after) opened h
        (search_table-stop socket memory c after e) in
    let s = search_table socket memory (before ++ c ∷ after) opened in
    record {
      returns =
          connect_found-cons socket memory c after s (opened + count_broken before) p.stops
            p.connects
          ∙ ap
              (λ past. (
                c,
                record { connections = past ++ c ∷ after; opened = opened + count_broken before },
              ))
              p.replaced;
      as_many = ap length (sym p.replaced) ∙ p.as_many;
      repaired = subst (All IsUsable) p.replaced p.repaired;
    }

-- Where no connection of the table is finished, `persistent_connect` opens one and returns it, and
-- the table has that one alone: the others are in it no more.
pub persistent_connect_lost :
    (socket : ℕ → ℕ) (memory : Connection) (nodes : List Connection) (opened : ℕ)
    → All IsBusy nodes
    → let n = opened + count_broken nodes in
      persistent_connect socket memory (record { connections = nodes; opened = opened }) ≡ (
        http_connect socket memory n,
        record { connections = http_connect socket memory n ∷ []; opened = n + 1 },
      )
unfolding persistent_connect search_table
persistent_connect_lost socket memory nodes opened h =
    let p = search_table-Passed socket memory nodes [] opened h (λ o. refl) in
    let s = search_table socket memory (nodes ++ []) opened in
    ap (λ l. connect_found socket memory (search_table socket memory l opened))
      (sym (append-nil nodes))
    ∙ connect_found-nil socket memory s (opened + count_broken nodes) p.stops p.connects
