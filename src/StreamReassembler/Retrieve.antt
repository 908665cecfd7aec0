-- ===== src/StreamReassembler/Retrieve.antt =====
-- The second loop of `push_substring`: it takes the bytes from the front up to the first empty
-- cell, and moves the cells behind them forward.
use csed353_sponge.Common.{
  length, get_or, length-append, ℕ, zero, suc, ◌+◌, ◌≤◌, ◌<◌, ◌≡◌, refl, sym, ap, ◌∙◌, ◌⊎◌, inl,
  inr, Bool, true, false, none, some, List, [], ◌∷◌, ◌++◌, arith,
}
use csed353_sponge.StreamReassembler.{retrieve}
use csed353_sponge.StreamReassembler.Cells.{cell, cell-snoc, count, count-append}

-- `taken`: the bytes come from the front cells. `stops`: it stops at an empty cell, or when there
-- is no room left.
pub record Retrieved (room : ℕ) (buffer : List ℕ) (state : List Bool)
    (out : List ℕ × List ℕ × List Bool) : Type 0 where
  pub len_buffer : length out.1 ≡ length buffer
  pub len_state : length out.2 ≡ length state
  pub fits : length out.0 ≤ room
  pub counted : length out.0 + count out.2 ≡ count state
  pub taken : (i : ℕ) → i < length out.0 → cell buffer state i ≡ some (get_or out.0 i 0)
  pub moved : (i : ℕ) → cell out.1 out.2 i ≡ cell buffer state (length out.0 + i)
  pub stops : (length out.0 ≡ room) ⊎ (cell buffer state (length out.0) ≡ none)

Retrieved-nothing :
    (room : ℕ) (buffer : List ℕ) (state : List Bool)
    → (room ≡ 0) ⊎ (cell buffer state 0 ≡ none)
    → Retrieved room buffer state ([], buffer, state)
Retrieved-nothing room buffer state stop = record {
  len_buffer = refl;
  len_state = refl;
  fits = omega arith;
  counted = omega arith;
  taken = λ i h. absurd (omega arith);
  moved = λ i. ap (cell buffer state) (omega arith);
  stops = ground arith;
}

Retrieved-more :
    (room byte : ℕ) (bytes : List ℕ) (flags : List Bool) (ret buffer : List ℕ) (state : List Bool)
    → length bytes ≡ length flags
    → Retrieved room (bytes ++ b' ' ∷ []) (flags ++ false ∷ []) (ret, buffer, state)
    → Retrieved (suc room) (byte ∷ bytes) (true ∷ flags) (byte ∷ ret, buffer, state)
Retrieved-more room byte bytes flags ret buffer state e s = record {
  len_buffer = omega (arith, s.len_buffer, length-append bytes (b' ' ∷ []));
  len_state = omega (arith, s.len_state, length-append flags (false ∷ []));
  fits = omega (arith, s.fits);
  counted = omega (arith, s.counted, count-append flags (false ∷ []));
  taken = later;
  moved = λ i.
      s.moved i
      ∙ cell-snoc bytes flags b' ' (length ret + i) e
      ∙ (let shift : suc (length ret + i) ≡ suc (length ret) + i = omega arith in
          ap (cell (byte ∷ bytes) (true ∷ flags)) shift);
  stops = ground (arith, s.stops, cell-snoc bytes flags b' ' (length ret) e);
}
  where
    later :
        (i : ℕ)
        → i < suc (length ret)
        → cell (byte ∷ bytes) (true ∷ flags) i ≡ some (get_or (byte ∷ ret) i 0)
    later zero h = refl
    later (suc i) h = sym (cell-snoc bytes flags b' ' i e) ∙ s.taken i (omega arith)

-- The second loop, on two deques of the same length: it takes off the front the longest run of known
-- bytes that there is room for, shifts the cells behind it to the front, and keeps the lengths and
-- the number of known bytes.
pub retrieve_lem :
    (room : ℕ) (buffer : List ℕ) (state : List Bool)
    → length buffer ≡ length state
    → Retrieved room buffer state (retrieve room buffer state)
unfolding retrieve
retrieve_lem (suc room) (byte ∷ bytes) (true ∷ flags) e =
    let (ret, buffer, state) = retrieve room (bytes ++ b' ' ∷ []) (flags ++ false ∷ []) in
    Retrieved-more room byte bytes flags ret buffer state (omega arith) (
      retrieve_lem room (bytes ++ b' ' ∷ []) (flags ++ false ∷ [])
        (omega (arith, length-append bytes (b' ' ∷ []), length-append flags (false ∷ []))))
retrieve_lem zero buffer state e = Retrieved-nothing zero buffer state (inl refl)
retrieve_lem (suc room) [] [] e = Retrieved-nothing (suc room) [] [] (inr refl)
retrieve_lem (suc room) [] (b ∷ flags) e = absurd (omega arith)
retrieve_lem (suc room) (byte ∷ bytes) [] e = absurd (omega arith)
retrieve_lem (suc room) (byte ∷ bytes) (false ∷ flags) e =
    Retrieved-nothing (suc room) (byte ∷ bytes) (false ∷ flags) (inr refl)
