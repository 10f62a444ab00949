-- ===== src/SourceMgr/Advance/Laws.antt =====
-- The loop of `advance` ends, whatever the flow it is called with.
use operations_procedure_sup.Common.{
  ℕ, zero, suc, ◌+◌, ◌*◌, ◌<◌, ◌≤◌, true, ◌≡◌, refl, inl, inr, arith, List, Option, none, some,
  length, Bool-cases, ◌⊎◌,
}
use operations_procedure_sup.ErrHandling.{OztResult, is_eof}
use operations_procedure_sup.Flow.{
  Flow, FlowCode, undefined_flow, normal, for_setup, next, goto_label_flow, gosub_label_flow,
  return_from_gosub_flow, include, end_of_file, pause_flow, quit_flow, stop_flow, restart,
  file_halted_flow, if_flow, else_flow, break_flow, endif_flow, switch_flow, case_flow,
  default_flow, endswitch_flow,
}
use operations_procedure_sup.SourceInfo.{SourceInfo}
use operations_procedure_sup.VarStore.{VarStore}
use operations_procedure_sup.SourceMgr.{System, SourceMgr, Active, is_active, to_active, of_active}
use operations_procedure_sup.SourceMgr.Advance.{
  Round, returns, continues, answer, answer_or_eof, answer_vars, leave_file, include_file,
  set_up_loop, round_of, round, advance_loop, rounds, advance_mgr,
}

-- How many rounds a flow takes at most, with two more for each file of the stack.
abbrev rank : FlowCode → ℕ
rank end_of_file = 1
rank file_halted_flow = 1
rank include = 3
rank _ = 2

abbrev need : Flow → Active → ℕ
need flow a = rank flow.code + 2 * length a.stack

-- A round ends the loop, or needs fewer rounds than `n` behind it.
abbrev Descends : ℕ → Round → Type 0
Descends n (returns a r) = zero ≤ n
Descends n (continues a flow) = need flow a < n

answer-Descends : (n : ℕ) (a : Active) (p : SourceInfo × OztResult) → Descends n (answer a p)
unfolding answer
answer-Descends n a p = omega arith

answer_or_eof-Descends :
    (n : ℕ) (a : Active) (p : SourceInfo × OztResult)
    → 1 + 2 * length a.stack < n
    → Descends n (answer_or_eof a p)
unfolding answer_or_eof
answer_or_eof-Descends n a (s, r) h = elim (Bool-cases (is_eof r.code)) [
  | inl e ↦ rw e h
  | inr e ↦ rw e (omega arith)
]

leave_file-Descends :
    (n : ℕ) (a : Active) (r : OztResult) → 1 + 2 * length a.stack ≤ n → Descends n (leave_file a r)
unfolding leave_file
leave_file-Descends n a r h = ground arith

answer_vars-Descends :
    (n : ℕ) (a : Active) (p : SourceInfo × VarStore × OztResult)
    → 1 + 2 * length a.stack < n
    → Descends n (answer_vars a p)
unfolding answer_vars
answer_vars-Descends n a (s, vs, r) h = answer_or_eof-Descends n _ (s, r) h

Round-cases :
    (r : Round)
    → ((a : Active) × (res : OztResult) × (r ≡ returns a res))
      ⊎ ((a : Active) × (flow : Flow) × (r ≡ continues a flow))
Round-cases (returns a r) = inl (a, r, refl)
Round-cases (continues a flow) = inr (a, flow, refl)

no_rounds : (c : FlowCode) → ¬ (rank c ≤ 0)
no_rounds c h = ground arith

rank_bound : (c : FlowCode) → rank c ≤ 3
rank_bound c = ground arith

module _ (sys : System) where
  include_file-Descends :
      (n : ℕ) (name : List ℕ) (a : Active)
      → 2 + 2 * length a.stack < n
      → Descends n (include_file sys name a)
  unfolding include_file
  include_file-Descends n name a h = ground arith

  set_up_loop-Descends :
      (n : ℕ) (flow : Flow) (a : Active)
      → 1 + 2 * length a.stack < n
      → Descends n (set_up_loop sys flow a)
  unfolding set_up_loop answer_vars answer_or_eof
  set_up_loop-Descends n flow a h = ground arith

  round_of-Descends :
      (c : FlowCode) (flow : Flow) (a : Active)
      → Descends (rank c + 2 * length a.stack) (round_of sys c flow a)
  unfolding round_of
  round_of-Descends normal flow a = answer_or_eof-Descends _ _ _ (omega arith)
  round_of-Descends for_setup flow a = set_up_loop-Descends _ flow a (omega arith)
  round_of-Descends next flow a = answer_vars-Descends _ _ _ (omega arith)
  round_of-Descends goto_label_flow flow a = answer-Descends _ _ _
  round_of-Descends gosub_label_flow flow a = answer-Descends _ _ _
  round_of-Descends return_from_gosub_flow flow a = answer_or_eof-Descends _ _ _ (omega arith)
  round_of-Descends include flow a = include_file-Descends _ _ _ (omega arith)
  round_of-Descends end_of_file flow a = leave_file-Descends _ _ _ (omega arith)
  round_of-Descends pause_flow flow a = omega arith
  round_of-Descends quit_flow flow a = omega arith
  round_of-Descends stop_flow flow a = omega arith
  round_of-Descends restart flow a = omega arith
  round_of-Descends file_halted_flow flow a = leave_file-Descends _ _ _ (omega arith)
  round_of-Descends if_flow flow a = answer-Descends _ _ _
  round_of-Descends else_flow flow a = answer-Descends _ _ _
  round_of-Descends endif_flow flow a = answer_or_eof-Descends _ _ _ (omega arith)
  round_of-Descends break_flow flow a = answer-Descends _ _ _
  round_of-Descends switch_flow flow a = answer-Descends _ _ _
  round_of-Descends case_flow flow a = answer-Descends _ _ _
  round_of-Descends default_flow flow a = answer-Descends _ _ _
  round_of-Descends endswitch_flow flow a = answer_or_eof-Descends _ _ _ (omega arith)
  round_of-Descends undefined_flow flow a = omega arith

  -- As many rounds as the flow needs end the loop.
  advance_loop_ends :
      (f : ℕ) (flow : Flow) (a : Active)
      → need flow a ≤ f
      → (p : Active × OztResult) × (advance_loop sys f flow a ≡ some p)
  unfolding advance_loop
  advance_loop_ends zero flow a h = absurd (no_rounds flow.code (omega arith))
  advance_loop_ends (suc f) flow a h = elim (Round-cases (round sys flow a)) [
    | inl (a', r, e) ↦ ((a', r), rw (e, advance_loop) refl)
    | inr (a', flow', e) ↦
        let d : Descends (need flow a) (continues a' flow') =
          rw e at (round_of-Descends flow.code flow a) in
        let (p, e') = advance_loop_ends f flow' a' (omega (arith, d)) in
        (p, rw (e, advance_loop) e')
  ]

  stepped :
      (flow : Flow) (a : Active) (p : Active × OztResult)
      → advance_loop sys (rounds sys a) flow a ≡ some p
      → advance_mgr sys flow (of_active a) ≡ some (of_active p.0, p.1)
  unfolding advance_mgr to_active of_active
  stepped flow a p e = rw (e, advance_mgr) refl

  -- `advance` with a current source always answers: the loop ends within the rounds given.
  pub advance_mgr-total :
      (flow : Flow) (m : SourceMgr)
      → is_active m ≡ true
      → (p : SourceMgr × OztResult) × (advance_mgr sys flow m ≡ some p)
  unfolding is_active of_active
  advance_mgr-total flow m h = answered m.curr_source h
    where
      answered :
          (o : Option SourceInfo)
          → is_active (record m { curr_source = o }) ≡ true
          → (p : SourceMgr × OztResult) × (advance_mgr sys flow (record m { curr_source = o })
              ≡ some p)
      answered none h' = cc h'
      answered (some s) h' =
          let a : Active = record {
            curr = s;
            stack = m.source_stack;
            vars = m.varstore;
            handler = m.err_handler;
          } in
          let (p, e) =
            advance_loop_ends (rounds sys a) flow a (omega (arith, rank_bound flow.code)) in
          ((of_active p.0, p.1), stepped flow a p e)
