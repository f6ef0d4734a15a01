-- ===== src/Rc632/Working.antt =====
-- Single steps of src/rfid_asic_rc632.c over a bus that works.
use librfid.Prelude.{
  ℕ, zero, suc, ℤ, pos, negsuc, neg_eio, neg_etimedout, ◌≡◌, sym, Option, none, some, List, Bool,
  true, false, not, ◌&&◌, ◌==◌, test, arith,
}
use mathlib.Core.Path.{subst}
use librfid.Control.{M, ◌>>◌, pure, leave_if, leave_neg}
use librfid.Control.Outcome.{Outcome, Ensures, Any, bind_lem, pure_lem, if_lem, call_lem, forget}
use librfid.Rc632.Reg
use librfid.Rc632.Bit
use librfid.Rc632.Transport.{Transport, RegRead, value, check, check_read, load, when}
use librfid.Rc632.Registers.{clear_irqs}
use librfid.Rc632.Timer.{check_error, check_timer, poll_timer, wait_idle_timer, later}

-- A transport over a bus that works, as far as `F` allows no fault: register reads store a value.
abbrev pub HasValue : RegRead → Type 0
HasValue r = (x : ℕ) × (r.val ≡ some x)

abbrev pub Works : {W : Type 0} → Type 0 → Transport W → Type 0
Works F t =
    ((reg val : ℕ) → Ensures F Any (t.reg_write reg val))
    × ((reg : ℕ) → Ensures F HasValue (t.reg_read reg))
    × ((bytes : List ℕ) (flags : ℕ) → Ensures F Any (t.fifo_write bytes flags))
    × ((n : ℕ) → Ensures F Any (t.fifo_read n))

module _ {W : Type 0} (t : Transport W) (F : Type 0) (works : Works F t) where
  leave_neg_safe : (r : ℤ) → Ensures F Any (leave_neg {S = W} r)
  unfolding Outcome
  leave_neg_safe (pos n) s = tt
  leave_neg_safe (negsuc n) s = tt

  pub check_safe : (m : M W ℤ) → Ensures F Any m → Ensures F Any (check m)
  check_safe m safe = bind_lem F Any Any m _ safe (λ r _. leave_neg_safe r)

  pub load_safe : (reg : ℕ) → Ensures F Any (load t reg)
  load_safe reg = bind_lem F HasValue Any (t.reg_read reg) _ (works.1 reg) (λ r (x, e).
      bind_lem F Any Any (leave_neg r.ret) _ (leave_neg_safe r.ret)
        (λ _ _. subst (λ v. Ensures F Any (value {S = W} v)) (sym e) (pure_lem F Any x tt)))

  check_read_safe : (reg : ℕ) → Ensures F Any (check_read t reg)
  check_read_safe reg =
      bind_lem F HasValue Any (t.reg_read reg) _ (works.1 reg) (λ r _. leave_neg_safe r.ret)

  pub seq_safe :
      {A B : Type 0} (m : M W A) (n : M W B)
      → Ensures F Any m
      → Ensures F Any n
      → Ensures F Any (m >> n)
  seq_safe m n first second = bind_lem F Any Any m _ first (λ _ _. second)

  pub read_safe : (reg : ℕ) → Ensures F Any (t.reg_read reg)
  read_safe reg w = forget F HasValue (t.reg_read reg w) (works.1 reg w)

  pub leave_if_safe : (b : Bool) (r : ℤ) → Ensures F Any (leave_if {S = W} b r)
  unfolding Outcome
  leave_if_safe true r s = tt
  leave_if_safe false r s = tt

  pub nothing : Ensures F Any (pure {S = W} (tt {0}))
  nothing = pure_lem F Any tt tt

  pub when_safe : (b : Bool) (m : M W (Unit {0})) → Ensures F Any m → Ensures F Any (when b m)
  when_safe b m safe = if_lem F Any b m _ (λ _. safe) (λ _. nothing)

  check_error_safe : (stat : ℕ) → Ensures F Any (check_error t stat)
  unfolding check_error
  check_error_safe stat = when_safe (test stat Bit.stat_err) _ (
      bind_lem F Any Any (load t Reg.error_flag) _ (load_safe Reg.error_flag)
        (λ err _. leave_if_safe _ neg_eio))

  check_timer_safe : (stat : ℕ) → Ensures F Any (check_timer t stat)
  unfolding check_timer clear_irqs
  check_timer_safe stat = when_safe (test stat Bit.stat_irq) _ (
      bind_lem F Any Any (load t Reg.interrupt_rq) _ (load_safe Reg.interrupt_rq) (λ irq _.
        when_safe (test irq Bit.irq_timer && not (test irq Bit.irq_rx)) _ (
          seq_safe (clear_irqs t Bit.irq_timer) _ (works.0 Reg.interrupt_rq _)
            (leave_if_safe true neg_etimedout))))

  later-value :
      (v stat : Option ℕ) (x : ℕ) → v ≡ some x → Ensures F Any (value {S = W} (later v stat))
  later-value none stat x e = ground arith
  later-value (some y) stat x e = pure_lem F Any y tt

  poll_end :
      (idle : Bool) (rest : M W ℤ)
      → Ensures F Any rest
      → Ensures F Any (elim idle as (λ _. M W ℤ) [
        | true ↦ (do clear_irqs t Bit.irq_rx; pure (pos 0))
        | false ↦ rest
      ])
  unfolding clear_irqs
  poll_end true rest safe =
      seq_safe (clear_irqs t Bit.irq_rx) _ (works.0 Reg.interrupt_rq _) (pure_lem F Any (pos 0) tt)
  poll_end false rest safe = safe

  poll_timer_safe : (fuel : ℕ) (stat : Option ℕ) → Ensures F Any (poll_timer t fuel stat)
  unfolding poll_timer Outcome
  poll_timer_safe zero stat w = tt
  poll_timer_safe (suc fuel) stat w =
      bind_lem F HasValue Any (t.reg_read Reg.primary_status) _ (works.1 Reg.primary_status)
        (λ r (x, e).
          bind_lem F Any Any (value (later r.val stat)) _ (later-value r.val stat x e) (λ s _.
            seq_safe (check_error t s) _ (check_error_safe s) (
              seq_safe (check_timer t s) _ (check_timer_safe s) (
                bind_lem F Any Any (load t Reg.command) _ (load_safe Reg.command)
                  (λ cmd _. poll_end (cmd == 0) _ (poll_timer_safe fuel (later r.val stat)))))))
        w

  pub wait_idle_timer_safe : (fuel : ℕ) → Ensures F Any (wait_idle_timer t fuel)
  unfolding wait_idle_timer
  wait_idle_timer_safe fuel = call_lem F _ (
      seq_safe (check_read t Reg.interrupt_en) _ (check_read_safe Reg.interrupt_en) (
        seq_safe (check (t.reg_write Reg.interrupt_en _)) _
          (check_safe _ (works.0 Reg.interrupt_en _)) (poll_timer_safe fuel none)))
