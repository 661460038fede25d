-- ===== src/Interfaces/ConstraintSystem.antt =====
-- ark_relations::gr1cs::ConstraintSystemRef with the variables of ark_r1cs_std, under an assignment:
-- a variable is read as its assigned value. The auxiliary variables that the gadgets allocate for
-- products and bits are assigned by the gadgets, so their constraints hold and are not listed.
use dzta.Prelude.{◌≡◌, Bool, true, List, [], ◌∷◌, ◌++◌, ◌↔◌}

pub data SynthesisError : Type 0 where
  assignment_missing : SynthesisError

pub record ConstraintSystem (F System : Type 0) : Type 0 where
  pub new_ref : System
  pub new_witness : F → System → System
  pub new_input : F → System → System
  pub enforce_equal : F → F → System → System
  pub is_satisfied : System → Bool
  -- the values of the public inputs and of the private witnesses, in the order of allocation
  pub inputs : System → List F
  pub witnesses : System → List F
  pub is_satisfied-new_ref : is_satisfied new_ref ≡ true
  pub is_satisfied-new_witness :
      (a : F) (cs : System) → is_satisfied (new_witness a cs) ≡ is_satisfied cs
  pub is_satisfied-new_input :
      (a : F) (cs : System) → is_satisfied (new_input a cs) ≡ is_satisfied cs
  pub is_satisfied-enforce_equal :
      (a b : F) (cs : System)
      → (is_satisfied (enforce_equal a b cs) ≡ true) ↔ ((is_satisfied cs ≡ true) × (a ≡ b))
  pub inputs-new_ref : inputs new_ref ≡ []
  pub inputs-new_witness : (a : F) (cs : System) → inputs (new_witness a cs) ≡ inputs cs
  pub inputs-new_input : (a : F) (cs : System) → inputs (new_input a cs) ≡ inputs cs ++ a ∷ []
  pub inputs-enforce_equal : (a b : F) (cs : System) → inputs (enforce_equal a b cs) ≡ inputs cs
  pub witnesses-new_ref : witnesses new_ref ≡ []
  pub witnesses-new_witness :
      (a : F) (cs : System) → witnesses (new_witness a cs) ≡ witnesses cs ++ a ∷ []
  pub witnesses-new_input : (a : F) (cs : System) → witnesses (new_input a cs) ≡ witnesses cs
  pub witnesses-enforce_equal :
      (a b : F) (cs : System) → witnesses (enforce_equal a b cs) ≡ witnesses cs
