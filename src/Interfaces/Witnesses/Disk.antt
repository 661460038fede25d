-- ===== src/Interfaces/Witnesses/Disk.antt =====
-- A store whose world is its entries, with writes that take effect at once, random bytes that are
-- zeros, and the host around it.
use dzta.Prelude.{
  ℕ, zero, suc, ◌≡◌, refl, ap, sym, Text, Result, ok, err, ok-injective, Option, none, some, [],
  ◌∷◌, length, arith,
}
use dzta.Prelude.Int.{pos}
use dzta.Interfaces.Host.{Clock}
use dzta.Interfaces.Askar.{Askar, AskarLaws, Entry, Entries, update, Random, RandomLaws}

-- What an insertion does, from the entry that is there.
abbrev inserted : Text → Text → Entry → Entries → Option Entry → Result Text (Unit {0}) × Entries
inserted category name entry entries none = (ok tt, update category name entry entries)
inserted category name entry entries (some old) = (err [], entries)

abbrev pub disk : Askar Entries
disk = record {
  Store = Unit {0};
  Session = Unit {0};
  open_store = λ uri pass w. (ok tt, w);
  provision = λ uri pass w. (ok tt, w);
  session = λ store w. (ok tt, w);
  fetch = λ s category name w. (ok (w category name), w);
  insert = λ s category name entry w. inserted category name entry w (w category name);
  replace = λ s category name entry w. (ok tt, update category name entry w);
  commit = λ s w. (ok tt, w);
}

pub same_world :
    {A : Type 0} (r r' : Result Text A) (w w' : Entries)
    → ◌≡◌ {A = Result Text A × Entries} (r, w) (r', w')
    → w' ≡ w
same_world r r' w w' h = sym (ap (λ p. p.1) h)

pub inserted-absent :
    (category name : Text) (entry : Entry) (w w' : Entries) (old : Option Entry)
    → inserted category name entry w old ≡ (ok tt, w')
    → (old ≡ none) × (w' ≡ update category name entry w)
inserted-absent category name entry w w' none h = (refl, sym (ap (λ p. p.1) h))
inserted-absent category name entry w w' (some old) h = absurd (cc (h))

abbrev pub disk-laws : AskarLaws disk
disk-laws = record {
  entries = λ store w. w;
  view = λ s w. w;
  store_of = λ s. s;
  store_of-session = λ store s w w' h. refl;
  view-session = λ store s w w' h. same_world _ _ w w' h;
  entries-session = λ store s w w' h. same_world _ _ w w' h;
  fetched = λ s category name found w w' h. sym (ok-injective (ap (λ p. p.0) h));
  view-fetch = λ s category name found w w' h. same_world _ _ w w' h;
  entries-fetch = λ s category name found w w' h. same_world _ _ w w' h;
  insert-absent = λ s category name entry w w' h.
      (inserted-absent category name entry w w' (w category name) h).0;
  view-insert = λ s category name entry w w' h.
      (inserted-absent category name entry w w' (w category name) h).1;
  view-replace = λ s category name entry w w' h. sym (ap (λ p. p.1) h);
  entries-commit = λ s w w' h. same_world _ _ w w' h;
}

abbrev pub zeros : ℕ → Text
zeros zero = []
zeros (suc n) = 0 ∷ zeros n

pub length-zeros : (n : ℕ) → length (zeros n) ≡ n
length-zeros zero = omega arith
length-zeros (suc n) = omega (arith, length-zeros n)

abbrev pub zero_bytes : Random Entries
zero_bytes = record { getrandom = λ n w. (ok (zeros n), w) }

pub zeros_drawn :
    (n : ℕ) (bytes : Text) (w w' : Entries)
    → ◌≡◌ {A = Result Text Text × Entries} (ok (zeros n), w) (ok bytes, w')
    → length bytes ≡ n
zeros_drawn n bytes w w' h =
    let e : zeros n ≡ bytes = ok-injective (ap (λ p. p.0) h) in rw (← e) (length-zeros n)

abbrev pub zero_bytes-laws : RandomLaws zero_bytes disk disk-laws
zero_bytes-laws = record {
  length-getrandom = zeros_drawn;
  entries-getrandom = λ n bytes store w w' h. same_world _ _ w w' h;
  view-getrandom = λ n bytes s w w' h. same_world _ _ w w' h;
}

abbrev pub empty : Entries
empty category name = none

-- A clock that stands still.
abbrev pub noon : Clock Entries
noon = record { instant = λ w. 0; now = λ w. pos 5; now_rfc3339 = λ w. 49 ∷ []; sleep = λ ms w. w }
