-- ===== src/Store/Snapshot.antt =====
-- `snapshot` and `load` of core/store.py, as far as the document that goes to the file. What writing
-- it as JSON does to it is a parameter: the keys of an object come back in the order of `sort_keys`.
pub mod Fits
pub mod Resume
use speculation_ledger.Prelude.{ℕ, Option, none, some, List, [], ◌∷◌, ◌==◌, if◌then◌else◌, map}
use speculation_ledger.Prelude.Dict.{Dict, insert}
use speculation_ledger.Floats.{Floats}
use speculation_ledger.Arena.{SpanEntry, Break, load_arena}
use speculation_ledger.Hot.{Cand, HotEntry, new_entry}
use speculation_ledger.Store.State.{LedgerStore, Epochs, set_epoch, refresh_sizes}

-- `_SNAPSHOT_SCHEMA`
abbrev pub snapshot_schema : ℕ
snapshot_schema = 1

-- The order in which the members of the JSON objects of candidates and of breaks come back.
pub record Sorting : Type 0 where
  pub of_cands : Dict Cand → Dict Cand
  pub of_breaks : Dict Break → Dict Break

module _ (fl : Floats) where
  pub record HotRow : Type 0 where
    pub key : ℕ
    pub seg : ℕ
    pub dom : ℕ
    pub scope_id : ℕ
    pub epoch : ℕ
    pub k_cap : ℕ
    pub cov : fl.F
    pub cands : Dict Cand

  -- The entries of the span table have all their fields in the document.
  pub record Doc : Type 0 where
    pub schema : ℕ
    pub version : ℕ
    pub hot : List HotRow
    pub spans : List SpanEntry
    pub arena : List ℕ
    pub epochs : Epochs

  abbrev pub hot_row : HotEntry fl → HotRow
  hot_row e = record {
    key = e.key;
    seg = e.seg;
    dom = e.dom;
    scope_id = e.scope_id;
    epoch = e.epoch;
    k_cap = e.k_cap;
    cov = e.cov_ema;
    cands = e.cands;
  }

  unfoldable pub snapshot : LedgerStore fl → Doc
  snapshot st = record {
    schema = snapshot_schema;
    version = st.params.version;
    hot = map (λ (e : ℕ × HotEntry fl). hot_row e.1) st.hot;
    spans = map (λ (s : ℕ × SpanEntry). s.1) st.spans;
    arena = st.arena.tokens;
    epochs = st.epochs;
  }

  abbrev pub entry_of_row : Sorting → ℕ → HotRow → HotEntry fl
  entry_of_row order k_init r = record (new_entry fl r.key r.seg r.dom r.scope_id r.epoch k_init) {
    k_cap = r.k_cap;
    cov_ema = r.cov;
    cands = order.of_cands r.cands;
  }

  unfoldable pub load_hot : Sorting → ℕ → List HotRow → Dict (HotEntry fl) → Dict (HotEntry fl)
  load_hot order k_init [] t = t
  load_hot order k_init (r ∷ rows) t =
      load_hot order k_init rows (insert r.key (entry_of_row order k_init r) t)

  unfoldable pub load_spans : Sorting → List SpanEntry → Dict SpanEntry → Dict SpanEntry
  load_spans order [] t = t
  load_spans order (s ∷ rows) t =
      load_spans order rows (insert s.key (record s { breaks = order.of_breaks s.breaks }) t)

  unfoldable pub load_epochs : Epochs → Epochs → Epochs
  load_epochs [] t = t
  load_epochs ((scope, dom, v) ∷ rows) t = load_epochs rows (set_epoch scope dom v t)

  -- `none` is the AssertionError for another schema.
  unfoldable pub load : Sorting → Doc → LedgerStore fl → Option (LedgerStore fl)
  unfolding load_hot load_spans load_epochs
  load order doc st =
      if doc.schema == snapshot_schema
      then some (
          refresh_sizes fl (record st {
            hot = load_hot order st.params.k_init doc.hot [];
            spans = load_spans order doc.spans [];
            arena = load_arena doc.arena;
            epochs = load_epochs doc.epochs [];
          }))
      else none
