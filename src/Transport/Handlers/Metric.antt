-- ===== src/Transport/Handlers/Metric.antt =====
-- What the answer of the metric command says to who reads it.
use sentinel_cpp.Prelude.{ℕ, ◌≡◌, refl, ◌∙◌, ap, false, some, List, [], ◌∷◌, map, All, Double}
use sentinel_cpp.Log.Format.{Text, IsFormat, IsPlain}
use sentinel_cpp.Log.Text.{text_eq}
use sentinel_cpp.Log.Stream.{lines_of_text}
use sentinel_cpp.Log.Item.{MetricItem, legal_name, to_thin_string, from_thin_string}
use sentinel_cpp.Log.Item.RoundTrip.{IsInt64, item_roundtrip}
use sentinel_cpp.Log.Searcher.{MetricSearcher, find_by_time_and_resource}
use sentinel_cpp.Log.Writer.Content.{lines-line}
use sentinel_cpp.Transport.{CommandRequest, get_param, of_success, codes}
use sentinel_cpp.Transport.Handlers.{
  Platform, HandlerState, items_text, answer_items, fetch_metric_log_handle,
}

module _ {D : Type 0} (p : Platform D) where
  -- An item of `int64_t` numbers whose thin text has no line break.
  abbrev pub IsReadable : MetricItem → Type 0
  IsReadable item = IsInt64 item × IsPlain b'\n' (to_thin_string p.format item)

  abbrev pub legal : MetricItem → MetricItem
  legal item = record item { resource = legal_name item.resource }

module _ {D : Type 0} ⦃d : Double D⦄ (p : Platform D) (law : IsFormat p.format) where
  read_items_text :
      (items : List MetricItem)
      → All (IsReadable p) items
      → map (from_thin_string p.format) (lines_of_text (items_text p items))
        ≡ map (λ item. some (legal p item)) items
  unfolding items_text lines_of_text
  read_items_text [] h = refl
  read_items_text (item ∷ items) h =
      rw (lines-line (to_thin_string p.format item) (items_text p items) h.0.1) (
        ap (λ first. first ∷ map (from_thin_string p.format) (lines_of_text (items_text p items)))
          (item_roundtrip law item h.0.0).0
        ∙ ap (◌∷◌ (some (legal p item))) (read_items_text items h.1))

  -- Where the start and the end of a request to the metric command are numbers, and the search gives
  -- items of `int64_t` numbers whose texts have no line breaks: the answer is a success, the
  -- searcher is left as the search leaves it and nothing else is changed, and the lines of the
  -- answer are read back as the items, in their order, each '|' in a name being a '_'.
  pub fetched_items_read_back :
      (request : CommandRequest) (st : HandlerState) (start_time end_time : ℕ)
      → (items : List MetricItem) (s : MetricSearcher)
      → text_eq (get_param (codes "startTime") request) [] ≡ false
      → p.format.simple_atoi (get_param (codes "startTime") request) ≡ some start_time
      → text_eq (get_param (codes "endTime") request) [] ≡ false
      → p.format.simple_atoi (get_param (codes "endTime") request) ≡ some end_time
      → find_by_time_and_resource p.format p.unset p.disk start_time end_time
          (get_param (codes "identity") request)
          st.searcher
        ≡ some (items, s)
      → All (IsReadable p) items
      → (result : Text) × (fetch_metric_log_handle p request st
          ≡ some (of_success result, record st { searcher = s }))
        × (map (from_thin_string p.format) (lines_of_text result)
            ≡ map (λ item. some (legal p item)) items)
  unfolding fetch_metric_log_handle answer_items
  fetched_items_read_back request st start_time end_time items s h1 h2 h3 h4 h5 h6 = (
    items_text p items,
    rw (fetch_metric_log_handle, h1, h2, h3, h4, h5) refl,
    read_items_text items h6,
  )
