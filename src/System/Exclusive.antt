-- ===== src/System/Exclusive.antt =====
-- Flights with different keys, and the marks of their keys.
use cpa_codex_turn_state_plu.Base.{
  ℕ, ◌+◌, ◌++◌, ◌≡◌, ◌∙◌, sym, ap, subst, Bool, true, false, List, [], ◌∷◌, Text, text_eq,
  text_beq_iff, arith, All, All-middle, All-without, All-replace,
}
use cpa_codex_turn_state_plu.Base.Dict.{Dict, insert, erase, lookup-insert, lookup-erase}
use cpa_codex_turn_state_plu.Config.{PluginConfig}
use cpa_codex_turn_state_plu.State.{flag_at}
use cpa_codex_turn_state_plu.System.Steps.{Flight}
use cpa_codex_turn_state_plu.System.Reachable.{InStep}

-- Two flights of one generation that probe different keys.
abbrev pub Apart : ℕ → Flight → Flight → Type 0
Apart generation f g = g.job.generation ≡ generation → ¬ (f.job.key ≡ g.job.key)

-- Each flight of the generation has its key marked, and no two have the same key.
abbrev pub IsExclusive : ℕ → Dict Text Bool → List Flight → Type 0
IsExclusive generation probing [] = Unit
IsExclusive generation probing (f ∷ fs) =
    (f.job.generation ≡ generation
      → (flag_at f.job.key probing ≡ true) × All (Apart generation f) fs)
    × IsExclusive generation probing fs

-- A new mark, at a key that had none: the marks of the others stay, and their keys differ.
pub marked :
    (generation : ℕ) (key : Text) (probing : Dict Text Bool) (fs : List Flight)
    → flag_at key probing ≡ false
    → IsExclusive generation probing fs
    → IsExclusive generation (insert key true probing) fs
marked generation key probing [] free h = tt
marked generation key probing (f ∷ fs) free h = (
  λ e.
      let (there, apart) = h.0 e in
      (ground (arith, lookup-insert key f.job.key true probing, there), apart),
  marked generation key probing fs free h.1,
)

pub marked-Apart :
    (generation : ℕ) (new : Flight) (probing : Dict Text Bool) (fs : List Flight)
    → flag_at new.job.key probing ≡ false
    → IsExclusive generation probing fs
    → All (Apart generation new) fs
marked-Apart generation new probing [] free h = tt
marked-Apart generation new probing (f ∷ fs) free h = (
  λ e same. true_not_false (sym (h.0 e).0 ∙ (ap (λ k. flag_at k probing) (sym same) ∙ free)),
  marked-Apart generation new probing fs free h.1,
)
  where
    true_not_false : ¬ (true ≡ false)
    true_not_false h = cc

-- Without its mark a flight may go; the marks of the others of its generation stay.
unmark :
    (generation : ℕ) (probing : Dict Text Bool) (f : Flight) (fs : List Flight)
    → All (Apart generation f) fs
    → IsExclusive generation probing fs
    → IsExclusive generation (erase f.job.key probing) fs
unmark generation probing f [] apart h = tt
unmark generation probing f (g ∷ fs) apart h = (
  λ e.
      let (there, others) = h.0 e in
      (
        ground (
          arith,
          lookup-erase f.job.key g.job.key probing,
          there,
          apart.0 e,
          text_beq_iff f.job.key g.job.key,
        ),
        others,
      ),
  unmark generation probing f fs apart.1 h.1,
)

pub land_marked :
    (generation : ℕ) (probing : Dict Text Bool) (before after : List Flight) (f : Flight)
    → f.job.generation ≡ generation
    → IsExclusive generation probing (before ++ f ∷ after)
    → IsExclusive generation (erase f.job.key probing) (before ++ after)
land_marked generation probing [] after f now h = unmark generation probing f after (h.0 now).1 h.1
land_marked generation probing (b ∷ before) after f now h = (
  λ e.
      let (there, others) = h.0 e in
      let differ = All-middle (Apart generation b) before after f others now in
      (
        ground (
          arith,
          lookup-erase f.job.key b.job.key probing,
          there,
          differ,
          text_beq_iff f.job.key b.job.key,
        ),
        All-without (Apart generation b) before after f others,
      ),
  land_marked generation probing before after f now h.1,
)

pub land_unmarked :
    (generation : ℕ) (probing : Dict Text Bool) (before after : List Flight) (f : Flight)
    → IsExclusive generation probing (before ++ f ∷ after)
    → IsExclusive generation probing (before ++ after)
land_unmarked generation probing [] after f h = h.1
land_unmarked generation probing (b ∷ before) after f h = (
  λ e. ((h.0 e).0, All-without (Apart generation b) before after f (h.0 e).1),
  land_unmarked generation probing before after f h.1,
)

-- A flight with the same job in the place of another.
pub relabel :
    (generation : ℕ) (probing : Dict Text Bool) (before after : List Flight) (f g : Flight)
    → g.job ≡ f.job
    → IsExclusive generation probing (before ++ f ∷ after)
    → IsExclusive generation probing (before ++ g ∷ after)
relabel generation probing [] after f g same h = (
  subst
      (λ job.
        job.generation ≡ generation
        → (flag_at job.key probing ≡ true)
          × All (λ k. k.job.generation ≡ generation → ¬ (job.key ≡ k.job.key)) after)
      (sym same) h.0,
  h.1,
)
relabel generation probing (b ∷ before) after f g same h = (
  λ e.
      let (there, others) = h.0 e in
      (
        there,
        All-replace (Apart generation b) before after f g
            (subst (λ job. job.generation ≡ generation → ¬ (b.job.key ≡ job.key)) (sym same)
              (All-middle (Apart generation b) before after f others))
            others,
      ),
  relabel generation probing before after f g same h.1,
)

-- After a step to a later generation no flight is of the current one.
pub stale :
    (cfg : PluginConfig) (generation : ℕ) (probing : Dict Text Bool) (fs : List Flight)
    → All (InStep cfg generation) fs
    → IsExclusive (generation + 1) probing fs
stale cfg generation probing [] h = tt
stale cfg generation probing (f ∷ fs) h =
    (λ e. absurd (omega (arith, e, h.0.past)), stale cfg generation probing fs h.1)
