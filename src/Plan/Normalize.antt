-- ===== src/Plan/Normalize.antt =====
-- The lookup of a neuron by its hotkey and the normalization of weights, which
-- src/misscomputer_subnet/weight_plan.py and src/misscomputer_subnet/weight_executor.py write out
-- in the same words.
use misscomputer_subnet.Prelude.{
  ℕ, zero, suc, Text, text_eq, Bool, false, ◌&&◌, ◌==◌, Option, none, some, List, [], ◌∷◌, map,
  if◌then◌else◌,
}
use misscomputer_subnet.Prelude.Floats.{Floats}
use misscomputer_subnet.Chain.{NeuronRecord}

-- `{neuron.hotkey: neuron ...}.get(hotkey)`: a later neuron of the same hotkey replaces an earlier
unfoldable pub current_neuron : Text → List NeuronRecord → Option NeuronRecord
current_neuron hotkey [] = none
current_neuron hotkey (n ∷ rest) = elim (current_neuron hotkey rest) [
  | some found ↦ some found
  | none ↦ if text_eq n.hotkey hotkey then some n else none
]

abbrev pub is_permitted : Option NeuronRecord → Bool
is_permitted none = false
is_permitted (some n) = n.active && n.validator_permit

-- whether the neuron is active and has the UID
abbrev pub at_uid : ℕ → Option NeuronRecord → Bool
at_uid uid none = false
at_uid uid (some n) = n.active && n.uid == uid

module _ (fl : Floats) where
  -- `max(range(len(xs)), key=xs.__getitem__)`: the first index of a greatest value, of those after
  -- the first element
  unfoldable pub max_index_from : (best value next : ℕ) → List ℕ → ℕ
  max_index_from best value next [] = best
  max_index_from best value next (x ∷ xs) =
      max_index_from (if fl.lt_float value x then next else best)
        (if fl.lt_float value x then x else value) (suc next) xs

  unfoldable pub max_index : List ℕ → ℕ
  unfolding max_index_from
  max_index [] = 0
  max_index (x ∷ xs) = max_index_from 0 x 1 xs

  -- `xs[index] += amount`
  unfoldable pub add_at : ℕ → ℕ → List ℕ → List ℕ
  add_at index amount [] = []
  add_at zero amount (x ∷ xs) = fl.add_float x amount ∷ xs
  add_at (suc index) amount (x ∷ xs) = x ∷ add_at index amount xs

  -- Divide by the total, and add what the sum misses to one greatest part.
  unfoldable pub normalize : ℕ → List ℕ → List ℕ
  unfolding max_index add_at
  normalize total weights =
      let shares = map (λ w. fl.div_float w total) weights in
      add_at (max_index shares) (fl.sub_float fl.one_float (fl.fsum shares)) shares
