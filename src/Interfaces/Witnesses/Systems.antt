-- ===== src/Interfaces/Witnesses/Systems.antt =====
-- A constraint system as the lists of its values and of its equations.
use dzta.Prelude.{◌≡◌, ◌↔◌, refl, Bool, true, false, List, [], ◌∷◌, ◌++◌, ◌&&◌, ◌==◌, ==_iff}
use dzta.Interfaces.ConstraintSystem.{ConstraintSystem}
use dzta.Interfaces.Witnesses.Zmod.{Fr, fr}

pub record Listed (F : Type 0) : Type 0 where
  pub private_values : List F
  pub public_values : List F
  pub holds : Bool

abbrev pub same : Fr → Fr → Bool
same a b = a.0 == b.0

pub same_iff : (a b : Fr) → (same a b ≡ true) ↔ (a ≡ b)
same_iff a b =
    (λ h. fr.into_bigint_injective a b ((==_iff a.0 b.0).0 h), λ e. rw e ((==_iff b.0 b.0).1 refl))

pub both_iff : (a b : Fr) (h : Bool) → ((h && same a b) ≡ true) ↔ ((h ≡ true) × (a ≡ b))
both_iff a b true = (λ e. (refl, (same_iff a b).0 e), λ e. (same_iff a b).1 e.1)
both_iff a b false = (λ e. cc, λ e. cc)

abbrev pub listed : ConstraintSystem Fr (Listed Fr)
listed = record {
  new_ref = record { private_values = []; public_values = []; holds = true };
  new_witness = λ a cs. record cs { private_values = cs.private_values ++ a ∷ [] };
  new_input = λ a cs. record cs { public_values = cs.public_values ++ a ∷ [] };
  enforce_equal = λ a b cs. record cs { holds = cs.holds && same a b };
  is_satisfied = λ cs. cs.holds;
  inputs = λ cs. cs.public_values;
  witnesses = λ cs. cs.private_values;
  is_satisfied-new_ref = refl;
  is_satisfied-new_witness = λ a cs. refl;
  is_satisfied-new_input = λ a cs. refl;
  is_satisfied-enforce_equal = λ a b cs. both_iff a b cs.holds;
  inputs-new_ref = refl;
  inputs-new_witness = λ a cs. refl;
  inputs-new_input = λ a cs. refl;
  inputs-enforce_equal = λ a b cs. refl;
  witnesses-new_ref = refl;
  witnesses-new_witness = λ a cs. refl;
  witnesses-new_input = λ a cs. refl;
  witnesses-enforce_equal = λ a b cs. refl;
}
