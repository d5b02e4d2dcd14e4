-- ===== src/Codegen/Functions/Finished.antt =====
-- The loop at the end of a function: behind it each block ends in a terminator.
use jmm_llvm.Prelude.{
  subst, Bool, true, false, Bool-cases, inl, inr, List, [], ◌∷◌, ◌≡◌, ◌≢◌, refl, sym, ◌∙◌,
}
use jmm_llvm.Common.Outcome.{warning_lem, weaken, Ensures, returns, ◌⟫◌}
use jmm_llvm.Codegen.Llvm.{Llvm, Instruction}
use jmm_llvm.Codegen.State.{frame, Codegen, emit, set_point, with_state}
use jmm_llvm.Codegen.Laws.{
  AtEnd, Keeps-trans, Keeps, Touches, Touches-trans, BlockLaws, Within, Distinct,
}
use jmm_llvm.Codegen.Functions.{erase_after_return, terminate, finish_block, finish_blocks}

-- From `c` to `c'` the generator touches the block `b` alone, and `b` ends in a terminator.
pub record Ended (llvm : Llvm) (b : llvm.Block) (c c' : Codegen llvm) : Type 0 where
  pub touches : Touches llvm b c.state c'.state
  pub terminator : llvm.terminated b c'.state ≡ true
  pub values : c'.values ≡ c.values
  pub context : frame llvm c' ≡ frame llvm c

-- From `c` to `c'` each block of `bs` is ended, and the generator touches no other block.
pub record Finished (llvm : Llvm) (bs : List llvm.Block) (c c' : Codegen llvm) : Type 0 where
  pub keeps : Keeps llvm c.state c'.state
  pub blocks : (f : llvm.Function) → llvm.blocks f c'.state ≡ llvm.blocks f c.state
  pub others :
      (o : llvm.Block)
      → ((b : llvm.Block) → Within b bs → b ≢ o)
      → llvm.terminated o c'.state ≡ llvm.terminated o c.state
  pub ended : (b : llvm.Block) → Within b bs → llvm.terminated b c'.state ≡ true
  pub values : c'.values ≡ c.values
  pub context : frame llvm c' ≡ frame llvm c

module _ (llvm : Llvm) (laws : BlockLaws llvm) where
  erase_after_return-Touches :
      (found : Bool) (b : llvm.Block) (is : List llvm.Value) (s : llvm.State)
      → ((v : llvm.Value) → Within v is → Within v (llvm.instructions b s))
      → Touches llvm b s (erase_after_return llvm found is s)
  unfolding erase_after_return
  erase_after_return-Touches found b [] s h = unchanged
    where
      unchanged : Touches llvm b s s
      unchanged = record {
        keeps = record { functions = λ _ _ e. e; parents = λ _ _ e. e };
        blocks = λ _. refl;
        others = λ _ _. refl;
      }
  erase_after_return-Touches true b (i ∷ is) s h = laws.erase_touches i b s (h i Within.here)
  erase_after_return-Touches false b (i ∷ is) s h =
      erase_after_return-Touches (llvm.is_return i s) b is s (λ v w. h v (Within.there w))

  terminate-Ended :
      (f : llvm.Function) (b : llvm.Block) (c : Codegen llvm)
      → Ensures (Ended llvm b c) (terminate llvm f b c)
  unfolding terminate set_point emit
  terminate-Ended f b c = elim (Bool-cases (llvm.returns_void f)) [
    | inl void ↦ rw void (
        let s₁ = llvm.set_insert_point b c.state in
        returns (record {
          touches =
              Touches-trans (laws.point_touches b b c.state)
                (laws.build_touches Instruction.ret_void b s₁ (laws.point_here b c.state));
          terminator = laws.ret_void_ends b s₁ (AtEnd.point c.state);
          values = refl;
          context = refl;
        }))
    | inr value ↦ rw value (
        warning_lem c.logger ⟫ λ l _.
        let s₁ = (llvm.trap_intrinsic c.state).1 in
        let s₂ = llvm.set_insert_point b s₁ in
        let call = Instruction.call (llvm.trap_intrinsic c.state).0 [] [] in
        let s₃ = (llvm.build call s₂).1 in
        let here = laws.build_here call s₂ ∙ laws.point_here b s₁ in
        returns (record {
          touches = Touches-trans (laws.trap_touches b c.state) (
              Touches-trans (laws.point_touches b b s₁) (
                Touches-trans (laws.build_touches call b s₂ (laws.point_here b s₁))
                  (laws.build_touches Instruction.unreachable b s₃ here)));
          terminator = laws.unreachable_ends b s₃ (AtEnd.built call (AtEnd.point s₁));
          values = refl;
          context = refl;
        }))
  ]

  finish_block-Ended :
      (f : llvm.Function) (b : llvm.Block) (c : Codegen llvm)
      → Ensures (Ended llvm b c) (finish_block llvm f b c)
  unfolding finish_block
  finish_block-Ended f b c =
      let s = erase_after_return llvm false (llvm.instructions b c.state) c.state in
      let erased =
        erase_after_return-Touches false b (llvm.instructions b c.state) c.state (λ _ w. w) in
      elim (Bool-cases (llvm.terminated b s)) [
        | inl done ↦ rw done (
            returns (record { touches = erased; terminator = done; values = refl; context = refl }))
        | inr more ↦ rw more (
            weaken
              (λ c' e. record {
                touches = Touches-trans erased e.touches;
                terminator = e.terminator;
                values = e.values;
                context = e.context;
              })
              (terminate-Ended f b (with_state llvm s c)))
      ]

  Finished-cons :
      {b : llvm.Block} {bs : List llvm.Block} {c c₁ c' : Codegen llvm}
      → ((o : llvm.Block) → Within o bs → b ≢ o)
      → Ended llvm b c c₁
      → Finished llvm bs c₁ c'
      → Finished llvm (b ∷ bs) c c'
  Finished-cons {b} {bs} {c} {c₁} {c'} apart e h = record {
    keeps = Keeps-trans e.touches.keeps h.keeps;
    blocks = λ f. h.blocks f ∙ e.touches.blocks f;
    others = λ o n. h.others o (λ d w. n d (Within.there w)) ∙ e.touches.others o (n b Within.here);
    ended = ended;
    values = h.values ∙ e.values;
    context = h.context ∙ e.context;
  }
    where
      ended : (d : llvm.Block) → Within d (b ∷ bs) → llvm.terminated d c'.state ≡ true
      ended d Within.here = h.others b (λ d w e. apart d w (sym e)) ∙ e.terminator
      ended d (Within.there w) = h.ended d w

  pub finish_blocks-Finished :
      (f : llvm.Function) (bs : List llvm.Block) (c : Codegen llvm)
      → Distinct bs
      → Ensures (Finished llvm bs c) (finish_blocks llvm f bs c)
  unfolding finish_blocks
  finish_blocks-Finished f [] c Distinct.nil = returns (record {
    keeps = record { functions = λ _ _ e. e; parents = λ _ _ e. e };
    blocks = λ _. refl;
    others = λ _ _. refl;
    ended = λ b w. nothing w;
    values = refl;
    context = refl;
  })
    where
      nothing : {b : llvm.Block} → Within b [] → llvm.terminated b c.state ≡ true
      nothing w = elim w [ ]
  finish_blocks-Finished f (b ∷ bs) c (Distinct.cons apart d) = finish_block-Ended f b c ⟫ λ c₁ e.
      weaken (λ c' h. Finished-cons apart e h) (finish_blocks-Finished f bs c₁ d)

  -- The loop at the end of a function ends the process with an error, or leaves each block of the function with a terminator.
  pub finish_blocks-Terminated :
      (f : llvm.Function) (c : Codegen llvm)
      → Ensures
          (λ c'.
            (b : llvm.Block)
            → Within b (llvm.blocks f c'.state)
            → llvm.terminated b c'.state ≡ true)
          (finish_blocks llvm f (llvm.blocks f c.state) c)
  finish_blocks-Terminated f c =
      weaken (λ c' h b w. h.ended b (subst (λ bs. Within b bs) (h.blocks f) w))
        (finish_blocks-Finished f (llvm.blocks f c.state) c (laws.blocks_distinct f c.state))
