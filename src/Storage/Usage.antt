-- ===== src/Storage/Usage.antt =====
-- postgres.go: the snapshot of the usage against the rows that the database sends.
use text.Mathlib.Text.{◌==◌ as str_eq}
use high_performance_llm_gat.Prelude.{
  String, List, [], ◌∷◌, Option, none, some, ◌≡◌, refl, sym, ap, ◌∙◌, map, arith, if◌then◌else◌,
}
use high_performance_llm_gat.Prelude.Dict.{lookup, insert, lookup-insert}
use high_performance_llm_gat.Prelude.Float.{Float}
use high_performance_llm_gat.Cache.{Reply, ok, fault}
use high_performance_llm_gat.Storage.{
  UsageModelStats, UsageSnapshot, Postgres, Rows, Row, row, no_row, row_fault, Totals, scan_rows,
  row_or_fault, cons_reply, ended_with, scan_checked, models_of, with_models, after_totals,
  get_usage_snapshot,
}

module _ {A : Type 0} where
  -- The rows that were scanned, if all were.
  cons_reply_sound :
      (a : A) (r : Reply (List A)) (l : List A)
      → cons_reply a r ≡ ok l
      → (l' : List A) × (r ≡ ok l') × (l ≡ a ∷ l')
  cons_reply_sound a (fault e) l h = absurd (ground (arith, h))
  cons_reply_sound a (ok l') l h = (l', refl, ground (arith, h))

  scan_rows_sound : (rows : List (Reply A)) (l : List A) → scan_rows rows ≡ ok l → rows ≡ map ok l
  unfolding scan_rows
  scan_rows_sound [] [] h = refl
  scan_rows_sound [] (x ∷ xs) h = absurd (ground (arith, h))
  scan_rows_sound (fault e ∷ rows) l h = absurd (ground (arith, h))
  scan_rows_sound (ok a ∷ rows) l h =
      let (l', e, k) = cons_reply_sound a (scan_rows rows) l h in
      rw k (ap (◌∷◌ (ok a)) (scan_rows_sound rows l' e))

  ended_with_sound :
      (e : Option String) (r : Reply (List A)) (l : List A)
      → ended_with e r ≡ ok l
      → (e ≡ none) × (r ≡ ok l)
  ended_with_sound e (fault e') l h = absurd (ground (arith, h))
  ended_with_sound none (ok l') l h = (refl, h)
  ended_with_sound (some e) (ok l') l h = absurd (ground (arith, h))

  scan_checked_sound :
      (r : Reply (Rows A)) (l : List A)
      → scan_checked r ≡ ok l
      → r ≡ ok (record { scanned = map ok l; ended = none })
  scan_checked_sound (fault e) l h = absurd (ground (arith, h))
  scan_checked_sound (ok rows) l h =
      let (e, k) = ended_with_sound rows.ended (scan_rows rows.scanned) l h in
      ap ok (complete rows (scan_rows_sound rows.scanned l k) e)
    where
      complete :
          (rows : Rows A)
          → rows.scanned ≡ map ok l
          → rows.ended ≡ none
          → rows ≡ record { scanned = map ok l; ended = none }
      complete rows p q = λ i. record { scanned = p i; ended = q i }

module _ {F : Type 0} where
  -- The last row of a model, and an earlier one in front of the rows.
  abbrev pub last_of :
      String
      → Option (UsageModelStats F)
      → List (String × UsageModelStats F)
      → Option (UsageModelStats F)
  last_of k earlier [] = earlier
  last_of k earlier ((model, s) ∷ rows) =
      last_of k (if str_eq model k then some s else earlier) rows

  lookup-models_of :
      (rows m : List (String × UsageModelStats F)) (k : String)
      → lookup k (models_of rows m) ≡ last_of k (lookup k m) rows
  unfolding models_of
  lookup-models_of [] m k = refl
  lookup-models_of ((model, s) ∷ rows) m k =
      lookup-models_of rows (insert model s m) k
      ∙ ap (λ o. last_of k o rows) (lookup-insert model k s m)

  -- The database sent all rows with no error, and the snapshot has the totals and the last row of
  -- each model.
  pub record Tells {W : Type 0} (fl : Float F) (p : Postgres F W) (w : W) (s : UsageSnapshot F)
      : Type 0 where
    pub totals : Totals F
    pub rows : List (String × UsageModelStats F)
    pub first_query : (p.totals w).0 ≡ row totals
    pub second_query :
        (p.by_model (p.totals w).1).0 ≡ ok (record { scanned = map ok rows; ended = none })
    pub total_requests : s.total_requests ≡ totals.total_requests
    pub total_tokens : s.total_tokens ≡ totals.total_tokens
    pub cache_hit_rate : s.cache_hit_rate ≡ totals.cache_hit_rate
    pub models : (k : String) → lookup k s.models ≡ last_of k none rows

module _ {F : Type 0} (fl : Float F) where
  with_models_sound :
      (t : Totals F) (r : Reply (List (String × UsageModelStats F))) (s : UsageSnapshot F)
      → with_models fl.zero t r ≡ ok s
      → (l : List (String × UsageModelStats F)) × (r ≡ ok l)
        × (record {
          total_requests = t.total_requests;
          total_tokens = t.total_tokens;
          total_cost = fl.zero;
          cache_hit_rate = t.cache_hit_rate;
          models = models_of l [];
        }
            ≡ s)
  with_models_sound t (fault e) s h = absurd (ground (arith, h))
  with_models_sound t (ok l) s h = (l, refl, ground (arith, h))

  after_totals-Tells :
      {W : Type 0} (p : Postgres F W) (w : W) (s : UsageSnapshot F) (o : Row (Totals F) × W)
      → p.totals w ≡ o
      → (after_totals fl p (row_or_fault o.0, o.1)).0 ≡ ok s
      → Tells fl p w s
  unfolding lookup
  after_totals-Tells p w s (row t, w1) e h =
      let (l, scanned, built) = with_models_sound t (scan_checked (p.by_model w1).0) s h in
      record {
        totals = t;
        rows = l;
        first_query = ap (λ o. o.0) e;
        second_query =
            ap (λ o. (p.by_model o.1).0) e ∙ scan_checked_sound (p.by_model w1).0 l scanned;
        total_requests = sym (ap (λ x. x.total_requests) built);
        total_tokens = sym (ap (λ x. x.total_tokens) built);
        cache_hit_rate = sym (ap (λ x. x.cache_hit_rate) built);
        models = λ k. sym (ap (λ x. lookup k x.models) built) ∙ lookup-models_of l [] k;
      }
  after_totals-Tells p w s (no_row, w1) e h = absurd (ground (arith, h))
  after_totals-Tells p w s (row_fault err, w1) e h = absurd (ground (arith, h))

  -- A snapshot is returned only if both queries answered and every row came and could be scanned;
  -- it has the totals of the first query and for each model the last row that the second sent.
  pub get_usage_snapshot-Tells :
      {W : Type 0} (p : Postgres F W) (w : W) (s : UsageSnapshot F)
      → (get_usage_snapshot fl (some p) w).0 ≡ ok s
      → Tells fl p w s
  unfolding get_usage_snapshot
  get_usage_snapshot-Tells p w s h = after_totals-Tells p w s (p.totals w) refl h
