-- ===== src/FlexSeq/Update.antt =====
-- `update`: the accesses are counted on the way down, and nodes rise or fall by one or more levels.
use splaylist.Base.{
  ℕ, not, zero, suc, ◌+◌, ◌-◌, ◌/◌, ◌^◌, Bool, true, false, ◌&&◌, none, some, ltb, leb, ◌==◌,
  if◌then◌else◌,
}
use splaylist.Base.Int.{pos, ◌+ℤ◌, ◌-ℤ◌, leb_ℤ, ltb_ℤ}
use splaylist.Base.Run.{Run, done, sunk, stuck, ◌>>=◌}
use splaylist.FlexSeq.State.{
  FlexList, head, put, read_next, set_next, set_hits, set_top_level, update_zero_level, lower_to,
  get_hits,
}

-- The variables of the loop along a level: `ok`, `predpred`, `pred`, `cur`, and the list.
pub record Position {ℓ} (V : Type ℓ) : Type ℓ where
  pub ok : Bool
  pub predpred : ℕ
  pub pred : ℕ
  pub cur : ℕ
  pub list : FlexList V

module _ {ℓ} {V : Type ℓ} where
  -- `p->next[h] == q`
  abbrev pub links_to : ℕ → ℕ → ℕ → FlexList V → Bool
  links_to p h q s = elim ((s.nodes p).next h) [ none ↦ false | some r ↦ r == q ]

  -- Enough accesses lie behind `predpred` at level `curh` for the next node to rise above it.
  unfoldable pub may_rise : ℕ → ℕ → FlexList V → Bool
  may_rise predpred curh s =
      ltb (curh + 1) s.highest
      && ltb curh (s.nodes predpred).top_level
      && ltb_ℤ (pos (s.access_counter / 2 ^ (s.highest - 1 - curh - 1)))
          ((s.nodes predpred).hits (curh + 1) -ℤ (s.nodes predpred).hits curh)

  -- `cur` gets level `curh + 1` behind `predpred`.
  unfoldable pub rise : ℕ → ℕ → ℕ → FlexList V → FlexList V
  rise predpred cur curh s =
      let s₁ = set_top_level cur ((s.nodes cur).top_level + 1) s in
      let s₂ =
        set_hits cur (curh + 1)
          ((s₁.nodes predpred).hits (curh + 1)
            -ℤ (s₁.nodes predpred).hits curh
            -ℤ (s₁.nodes cur).selfhits)
          s₁ in
      let s₃ = set_next cur (curh + 1) ((s₂.nodes predpred).next (curh + 1)) s₂ in
      let s₄ = set_next predpred (curh + 1) (some cur) s₃ in
      set_hits predpred (curh + 1) ((s₄.nodes predpred).hits curh) s₄

  -- The `while` loop that lets `cur` rise as far as it may.
  unfoldable pub rise_loop : ℕ → ℕ → ℕ → ℕ → FlexList V → Run (FlexList V)
  unfolding may_rise rise
  rise_loop zero predpred cur curh s = stuck
  rise_loop (suc fuel) predpred cur curh s =
      let rest = rise_loop fuel predpred cur (curh + 1) (rise predpred cur curh s) in
      if may_rise predpred curh s then rest else done s

  -- The lowest level of the list goes down by one where `h` is that level.
  unfoldable pub deepen : ℕ → FlexList V → Run (FlexList V)
  deepen h s =
      if h == s.zero_level
      then (elim s.zero_level [ zero ↦ sunk | suc z ↦ done (record s { zero_level = z }) ])
      else done s

  -- `if (p->zeroLevel > h - 1) updateZeroLevel(p);` for an `h` above 0
  unfoldable pub lower_once : ℕ → ℕ → FlexList V → FlexList V
  unfolding update_zero_level
  lower_once p h s = if ltb (h - 1) (s.nodes p).zero_level then update_zero_level p s else s

  -- `cur` leaves level `h`, its highest, and `pred` takes its counts.
  unfoldable pub unlink : ℕ → ℕ → ℕ → FlexList V → FlexList V
  unfolding get_hits
  unlink pred cur h s =
      let s₁ = set_hits pred h ((s.nodes pred).hits h +ℤ get_hits cur h s) s in
      let s₂ = set_hits cur h (pos 0) s₁ in
      let s₃ = set_next pred h ((s₂.nodes cur).next h) s₂ in
      let s₄ = set_next cur h none s₃ in set_top_level cur ((s₄.nodes cur).top_level - 1) s₄

  unfoldable pub fall : ℕ → ℕ → ℕ → FlexList V → Run (FlexList V)
  unfolding deepen lower_once unlink
  fall pred cur h s = do
    s₁ ← deepen h s
    done (unlink pred cur h (lower_once pred h (lower_once cur h s₁)))

  -- Too few accesses lie behind `cur` for it to stay at level `h`. The power of 2 is a shift of an int: by
  -- 29 at most with 30 levels, and with the 44 levels of the list with locks by 31 at most for fewer than
  -- 2^31 accesses.
  unfoldable pub may_fall : ℕ → ℕ → ℕ → FlexList V → Bool
  unfolding get_hits
  may_fall pred cur h s =
      (s.nodes cur).top_level == h
      && leb_ℤ (get_hits cur h s +ℤ get_hits pred h s)
          (pos (s.access_counter / 2 ^ (s.highest - 1 - h)))

  -- The access is counted at `cur` if the next key at the level is greater than `key`.
  unfoldable pub count_hit : ℕ → ℕ → ℕ → FlexList V → FlexList V
  count_hit key h cur s =
      if (s.nodes cur).key == key
      then put cur (record (s.nodes cur) { selfhits = (s.nodes cur).selfhits +ℤ pos 1 }) s
      else set_hits cur h ((s.nodes cur).hits h +ℤ pos 1) s

  -- The three ways in which the loop along level `h` goes on from `cur`, once the access is counted
  -- in the list `s`.
  unfoldable pub go_up : ℕ → Bool → ℕ → ℕ → FlexList V → Run (Position V)
  unfolding rise_loop
  go_up h ok predpred cur s = do
    s' ← rise_loop s.highest predpred cur (s.nodes cur).top_level s
    q ← read_next cur h s'
    done (record { ok = ok; predpred = cur; pred = cur; cur = q; list = s' })

  unfoldable pub go_down : ℕ → Bool → ℕ → ℕ → ℕ → FlexList V → Run (Position V)
  unfolding fall
  go_down h ok predpred pred cur s = do
    s' ← fall pred cur h s
    q ← read_next pred h s'
    done (record { ok = ok; predpred = predpred; pred = pred; cur = q; list = s' })

  unfoldable pub go_on : ℕ → Bool → ℕ → ℕ → FlexList V → Run (Position V)
  go_on h ok predpred cur s = do
    q ← read_next cur h s
    done (record { ok = ok; predpred = predpred; pred = cur; cur = q; list = s })

  -- One round of the loop along level `h`.
  unfoldable pub round : ℕ → ℕ → Position V → Run (Position V)
  unfolding lower_to count_hit may_rise may_fall go_up go_down go_on
  round key h p = do
    s₁ ← lower_to p.cur h p.list
    let s₂ = record s₁ { sum_lengths = s₁.sum_lengths + 1 }
    n ← read_next p.cur h s₂
    let last = ltb key (s₂.nodes n).key
    let s₃ = if last then count_hit key h p.cur s₂ else s₂
    let ok = if last && ((s₂.nodes p.cur).key == key) then true else p.ok
    if may_rise p.predpred h s₃ && links_to p.predpred h p.cur s₃
        then go_up h ok p.predpred p.cur s₃
        else if not last && may_fall p.pred p.cur h s₃
        then go_down h ok p.predpred p.pred p.cur s₃
        else go_on h ok p.predpred p.cur s₃

  -- `while (cur->key <= key)`; the keys of `cur` grow, so `key + 1` rounds are enough.
  unfoldable pub walk_level : ℕ → ℕ → ℕ → Position V → Run (Position V)
  unfolding round
  walk_level zero key h p = stuck
  walk_level (suc fuel) key h p =
      let rest : Run (Position V) = do p' ← round key h p; walk_level fuel key h p'
      in if leb (p.list.nodes p.cur).key key then rest else done p

  -- The levels below the first argument, from `pred`.
  unfoldable pub update_levels : ℕ → ℕ → ℕ → FlexList V → Run (FlexList V)
  unfolding lower_to walk_level
  update_levels zero key pred s = done s
  update_levels (suc h) key pred s =
      let level : Run (FlexList V) = do
        s₁ ← lower_to pred h s
        cur ← read_next pred h s₁
        s₂ ← lower_to cur h s₁
        let s₃ = record s₂ { sum_lengths = s₂.sum_lengths + 1 }
        let above = update_levels h key pred (set_hits pred h ((s₃.nodes pred).hits h +ℤ pos 1) s₃)
        let along : Run (FlexList V) = do
          p ←
              walk_level (key + 1) key h
                (record { ok = false; predpred = pred; pred = pred; cur = cur; list = s₃ })
          let rest = update_levels h key p.pred p.list
          if p.ok then done p.list else rest
        if ltb key (s₃.nodes cur).key then above else along
      in if leb s.zero_level h then level else done s

  unfoldable pub update : ℕ → FlexList V → Run (FlexList V)
  unfolding update_levels
  update key s =
      let s₁ = record s { access_counter = s.access_counter + 1 } in
      update_levels s.highest key head
        (set_hits head s.highest ((s₁.nodes head).hits s.highest +ℤ pos 1) s₁)
