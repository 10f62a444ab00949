-- ===== src/FileMgr/Reading.antt =====
-- `readLine` call by call: a file is read as the pieces between its line ends, in order.
use operations_procedure_sup.Common.{
  ℕ, zero, suc, ◌+◌, ◌<◌, Bool, true, false, ◌||◌, ◌≡◌, refl, ap, sym, ◌∙◌, inl, inr, arith, List,
  [], ◌∷◌, ◌++◌, map, some, Text, if◌then◌else◌, length, length-append, take, drop, pos, ltb_ℤ,
  leb_ℤ,
}
use operations_procedure_sup.Tools.{Tools}
use operations_procedure_sup.ErrHandling.{OztResult, of_code, no_problem, hit_eof, filtered, is_ok}
use operations_procedure_sup.SourceInfo.Load.{contents}
use operations_procedure_sup.FileMgr.{
  is_null, FileSystem, FileMgr, read_line, split_line, next_line, read, read_loop, reopened,
  behind_line, failed_read, open_read_file, open_stored, is_dir,
}
use operations_procedure_sup.FileMgr.Pieces.{
  FindsLineEnds, pieces, all_pieces, at_place, First-piece, pieces_some, fine, map-append, not_null,
  first_end,
}

module _ {W : Type 0} (t : Tools) (fs : FileSystem W) where
  -- Calls of `readLine`: what they answer, and the state behind them.
  abbrev pub read_times : ℕ → FileMgr W → List (Text × OztResult) × FileMgr W
  read_times zero m = ([], m)
  read_times (suc n) m =
      let (a, m1) = read_line t fs m in let (rest, m2) = read_times n m1 in (a ∷ rest, m2)

  -- With a text and a newline to split.
  abbrev within : Text → FileMgr W → FileMgr W
  within s m = record m { last_read_line = s ++ 10 ∷ [] }

  read_line-split_line :
      (s : Text) (m : FileMgr W) → read_line t fs (within s m) ≡ split_line t (within s m)
  unfolding read_line
  read_line-split_line s m =
      ap
        (λ b.
          split_line t
            (if b then next_line fs (pos (suc m.last_line_index)) (within s m) else within s m))
        (not_null s)

  split_line_piece :
      (s : Text) (m : FileMgr W) (k : ℕ)
      → FindsLineEnds t
      → first_end 0 (s ++ 10 ∷ []) ≡ some (k, 1)
      → split_line t (within s m)
        ≡ (fine (take k (s ++ 10 ∷ [])), record m { last_read_line = drop (suc k) (s ++ 10 ∷ []) })
  unfolding split_line filtered is_ok
  split_line_piece s m k finds first = rw (split_line, finds (s ++ 10 ∷ []), first) refl

  read_times_next :
      (n : ℕ) (m m1 m2 : FileMgr W) (a : Text × OztResult) (rest : List (Text × OztResult))
      → read_line t fs m ≡ (a, m1)
      → read_times n m1 ≡ (rest, m2)
      → read_times (suc n) m ≡ (a ∷ rest, m2)
  read_times_next n m m1 m2 a rest e1 e2 = rw (read_times, e1, e2) refl

  read_pieces :
      (f : ℕ) (s : Text) (m : FileMgr W)
      → FindsLineEnds t
      → length s < f
      → read_times (length (pieces s)) (within s m)
        ≡ (map fine (pieces s), record m { last_read_line = [] })
  read_pieces zero s m finds h = absurd (omega arith)
  read_pieces (suc f) s m finds h =
      let (k, first, more) = First-piece s 0 in
      let step =
        read_line-split_line s m
        ∙ split_line_piece s m k finds (first ∙ at_place (0 + k) k (omega arith)) in
      elim more [
        | inl (all, none_behind, only) ↦
            rw only
              (read_times_next 0 (within s m) _ _ _ _ (step ∙ rw (all, none_behind) refl) refl)
        | inr (s1, behind, split, shorter) ↦ rw split (
            read_times_next (length (pieces s1)) (within s m) _ _ _ _ (step ∙ rw behind refl)
              (read_pieces f s1 m finds (omega arith)))
      ]

  read_times_sum :
      (a b : ℕ) (m : FileMgr W)
      → let (firsts, m1) = read_times a m in
        let (seconds, m2) = read_times b m1 in read_times (a + b) m ≡ (firsts ++ seconds, m2)
  read_times_sum zero b m =
      let none_first : 0 + b ≡ b = omega arith in ap (λ n. read_times n m) none_first
  read_times_sum (suc a) b m =
      let one_first : suc a + b ≡ suc (a + b) = omega arith in
      ap (λ n. read_times n m) one_first ∙ rw (read_times_sum a b (read_line t fs m).1) refl

  -- Between two lines: the lines to come, and what else differs from the state m.
  abbrev pub between : FileMgr W → List Text → Bool → ℕ → OztResult → FileMgr W
  between m ls met i r = record m {
    stored_file = record m.stored_file { is_open = true; lines = ls; left_over = []; eof = met };
    last_line_index = i;
    last_read_line = [];
    last_read_result = r;
  }

  read_loop_here :
      (ls : List Text) (m : FileMgr W) → read_loop (pos m.last_line_index) ls m ≡ (true, m)
  unfolding read_loop
  read_loop_here [] m =
      let there : ltb_ℤ (pos m.last_line_index) (pos m.last_line_index) ≡ false = ground arith in
      rw (read_loop, there) refl
  read_loop_here (l ∷ ls) m =
      let there : ltb_ℤ (pos m.last_line_index) (pos m.last_line_index) ≡ false = ground arith in
      rw (read_loop, there) refl

  read_loop_one :
      (l : Text) (ls : List Text) (m : FileMgr W)
      → read_loop (pos (suc m.last_line_index)) (l ∷ ls) m ≡ (
        true,
        record m {
          last_read_line = l;
          stored_file = behind_line ls m.stored_file;
          last_line_index = suc m.last_line_index;
        },
      )
  unfolding read_loop
  read_loop_one l ls m =
      let before : ltb_ℤ (pos m.last_line_index) (pos (suc m.last_line_index)) ≡ true =
        ground arith in
      rw (read_loop, before) (read_loop_here ls _)

  read_next :
      (l : Text) (ls : List Text) (m : FileMgr W) (met : Bool) (i : ℕ) (r : OztResult)
      → read fs (pos (suc i)) (between m (l ∷ ls) met i r)
        ≡ read_loop (pos (suc i)) (l ∷ ls) (between m (l ∷ ls) met i r)
  unfolding read
  read_next l ls m met i r =
      let ahead : leb_ℤ (pos (suc i)) (pos i) ≡ false = ground arith in
      let m0 = between m (l ∷ ls) met i r in
      ap
        (λ b.
          let m1 = if b then reopened fs m0 else m0 in
          read_loop (pos (suc i)) (if m1.stored_file.is_open then m1.stored_file.lines else []) m1)
        ahead

  next_line-between :
      (m : FileMgr W) (l : Text) (ls : List Text) (met : Bool) (i : ℕ) (r : OztResult)
      → next_line fs (pos (suc i)) (between m (l ∷ ls) met i r) ≡ record m {
        stored_file = behind_line ls (between m (l ∷ ls) met i r).stored_file;
        last_line_index = suc i;
        last_read_line = l ++ 10 ∷ [];
        last_read_result = of_code no_problem;
      }
  unfolding next_line
  next_line-between m l ls met i r =
      rw (next_line, read_next l ls m met i r ∙ read_loop_one l ls (between m (l ∷ ls) met i r))
        refl

  behind-between :
      (m : FileMgr W) (l : Text) (ls : List Text) (met : Bool) (i : ℕ) (r : OztResult)
      → (met1 : Bool) × (record m {
        stored_file = behind_line ls (between m (l ∷ ls) met i r).stored_file;
        last_line_index = suc i;
        last_read_line = l ++ 10 ∷ [];
        last_read_result = of_code no_problem;
      }
          ≡ within l (between m ls met1 (suc i) (of_code no_problem)))
  behind-between m l [] met i r = (m.stored_file.meets_end || met, refl)
  behind-between m l (l1 ∷ ls) met i r = (met, refl)

  read_line-between :
      (m : FileMgr W) (l : Text) (ls : List Text) (met : Bool) (i : ℕ) (r : OztResult)
      → (met1 : Bool) × (read_line t fs (between m (l ∷ ls) met i r)
          ≡ read_line t fs (within l (between m ls met1 (suc i) (of_code no_problem))))
  unfolding read_line
  read_line-between m l ls met i r =
      let (met1, e) = behind-between m l ls met i r in
      (
        met1,
        ap (split_line t) (next_line-between m l ls met i r ∙ e)
            ∙ sym (read_line-split_line l (between m ls met1 (suc i) (of_code no_problem))),
      )

  read_times_first :
      (n : ℕ) (m m1 : FileMgr W)
      → 0 < n
      → read_line t fs m ≡ read_line t fs m1
      → read_times n m ≡ read_times n m1
  read_times_first zero m m1 h e = absurd (omega arith)
  read_times_first (suc n) m m1 h e =
      ap (λ a. let (rest, m2) = read_times n a.1 in (a.0 ∷ rest, m2)) e

  read_all_lines :
      (m : FileMgr W) (ls : List Text) (met : Bool) (i : ℕ) (r : OztResult)
      → FindsLineEnds t
      → (met1 : Bool) × (i1 : ℕ) × (r1 : OztResult) × (read_times
            (length (all_pieces ls))
            (between m ls met i r)
          ≡ (map fine (all_pieces ls), between m [] met1 i1 r1))
  read_all_lines m [] met i r finds = (met, i, r, refl)
  read_all_lines m (l ∷ ls) met i r finds =
      let (met1, e) = read_line-between m l ls met i r in
      let (met2, i2, r2, rest) = read_all_lines m ls met1 (suc i) (of_code no_problem) finds in
      let line =
        read_times_first (length (pieces l)) _ _ (pieces_some l) e
        ∙ read_pieces (suc (length l)) l (between m ls met1 (suc i) (of_code no_problem)) finds
            (omega arith) in
      (
        met2,
        i2,
        r2,
        ap (λ n. read_times n (between m (l ∷ ls) met i r))
              (length-append (pieces l) (all_pieces ls))
            ∙ read_times_sum (length (pieces l)) (length (all_pieces ls))
                (between m (l ∷ ls) met i r)
            ∙ rw (line, rest)
                (ap (λ ps. (ps, between m [] met2 i2 r2))
                  (sym (map-append (pieces l) (all_pieces ls)))),
      )

  read_loop_end :
      (m : FileMgr W) → read_loop (pos (suc m.last_line_index)) [] m ≡ (false, failed_read m)
  unfolding read_loop
  read_loop_end m =
      let before : ltb_ℤ (pos m.last_line_index) (pos (suc m.last_line_index)) ≡ true =
        ground arith in
      rw (read_loop, before) refl

  next_line_end :
      (m : FileMgr W) (met : Bool) (i : ℕ) (r : OztResult)
      → next_line fs (pos (suc i)) (between m [] met i r) ≡ between m [] true i (of_code hit_eof)
  unfolding next_line read
  next_line_end m met i r =
      let ahead : leb_ℤ (pos (suc i)) (pos i) ≡ false = ground arith in
      rw (next_line, ahead, read_loop_end (between m [] met i r)) refl

  split_line_nothing :
      (m : FileMgr W)
      → FindsLineEnds t
      → (split_line t (record m { last_read_line = [] })).0
        ≡ ([], (filtered m.last_read_result m.err_handler).0)
  unfolding split_line
  split_line_nothing m finds = rw (split_line, finds []) refl

  -- With no line to come, a call answers the empty text and the end of the file.
  read_line_end :
      (m : FileMgr W) (met : Bool) (i : ℕ) (r : OztResult)
      → FindsLineEnds t
      → (read_line t fs (between m [] met i r)).0
        ≡ ([], (filtered (of_code hit_eof) m.err_handler).0)
  unfolding read_line
  read_line_end m met i r finds =
      ap (λ m1. (split_line t m1).0) (next_line_end m met i r)
      ∙ split_line_nothing (between m [] true i (of_code hit_eof)) finds

  -- What the file manager is behind `openReadFile` of a file that could be opened.
  abbrev pub with_file : Text → FileMgr W → FileMgr W
  with_file full m = record m {
    stored_file = record m.stored_file { meets_end = fs.meets_eof full m.world };
    stored_file_name = full;
  }

  open_read_file-between :
      (name : Text) (m : FileMgr W) (ls : List Text)
      → is_null name ≡ false
      → m.stored_file.is_open ≡ false
      → is_null m.stored_file_name ≡ true
      → is_dir fs (fs.normalise_path name) m ≡ false
      → fs.read_file (fs.normalise_path name) m.world ≡ contents ls []
      → open_read_file fs name m ≡ (
        of_code no_problem,
        between (with_file (fs.normalise_path name) m) ls false 0 (of_code no_problem),
      )
  unfolding open_read_file open_stored filtered is_ok
  open_read_file-between name m ls named shut forgotten file there =
      rw (named, file, forgotten, shut) (rw (open_stored, there) refl)

  -- A file that `openReadFile` can open and whose lines can all be read, `left_over` being empty:
  -- the calls of `readLine` answer, in order and without a problem, the pieces between the line
  -- ends of its lines, and the next call answers the empty text with HIT_EOF, as the error handler
  -- filters it. Conditions: no file is open, the name is not empty and names no directory, and the
  -- expression for line ends is found at the first line end and nowhere else.
  pub read_times-open_read_file :
      (name : Text) (m : FileMgr W) (ls : List Text)
      → FindsLineEnds t
      → is_null name ≡ false
      → m.stored_file.is_open ≡ false
      → is_null m.stored_file_name ≡ true
      → is_dir fs (fs.normalise_path name) m ≡ false
      → fs.read_file (fs.normalise_path name) m.world ≡ contents ls []
      → let (r, m1) = open_read_file fs name m in
        let (answers, m2) = read_times (length (all_pieces ls)) m1 in
        (r ≡ of_code no_problem)
        × (answers ≡ map fine (all_pieces ls))
        × ((read_line t fs m2).0 ≡ ([], (filtered (of_code hit_eof) m.err_handler).0))
  read_times-open_read_file name m ls finds named shut forgotten file there =
      let (met, i, r, all) =
        read_all_lines (with_file (fs.normalise_path name) m) ls false 0 (of_code no_problem)
          finds in
      rw (open_read_file-between name m ls named shut forgotten file there, all)
        (refl, refl, read_line_end (with_file (fs.normalise_path name) m) met i r finds)
