-- ===== src/Pretest/Reads.antt =====
-- What the readings of the key-value table and of the portfolios give: the value that the table holds,
-- with the tables left as they were.
use open_neotrader.Base.{◌≡◌, refl, String, Option, inl, inr, Bool-cases}
use open_neotrader.Exec.{gets, ◌>>=◌}
use open_neotrader.Exec.Leads.{Gives, Gives-bind}
use open_neotrader.Common.Kv.{kv_get}
use open_neotrader.Pretest.State.{Pretests, Trial, store_call, read_kv}

-- what a reading leaves as it was
abbrev pub Seen : Pretests → Pretests → Type 0
Seen v w =
    (w.external ≡ v.external)
    × (w.portfolios ≡ v.portfolios)
    × (w.kv ≡ v.kv)
    × (w.plugin_calls ≡ v.plugin_calls)

module _ (v : Pretests) where
  pub Gives-store_call : Gives (Seen v) (λ _. Unit) store_call
  unfolding store_call
  Gives-store_call = record {
    at = λ w h. h;
    value = λ w h. elim (Bool-cases (w.external.store_works w.calls_made)) [
      | inl x ↦ rw x tt
      | inr x ↦ rw x tt
    ];
  }

  pub Gives-gets :
      {A : Type 0} (f : Pretests → A) (E : A → Type 0)
      → ((w : Pretests) → Seen v w → E (f w))
      → Gives (Seen v) E (gets f)
  unfolding gets
  Gives-gets f E h = record { at = λ w s. s; value = h }

  pub Gives-read_kv : (k : String) → Gives (Seen v) (λ raw. raw ≡ kv_get k v.kv) (read_kv k)
  unfolding read_kv
  Gives-read_kv k =
      Gives-bind store_call _ (Gives-store_call) (λ _ _. Gives-gets _ _ (λ w h. rw h.2 refl))

  pub read_then :
      {T : Type 0} {F : T → Type 0} (k : String) (next : Option String → Trial T)
      → Gives (Seen v) F (next (kv_get k v.kv))
      → Gives (Seen v) F (read_kv k >>= next)
  read_then k next g = Gives-bind (read_kv k) next (Gives-read_kv k) (λ raw is. rw is g)
