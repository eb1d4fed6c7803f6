-- ===== src/Logs/Buffer.antt =====
-- `InMemoryLogBuffer` of src/acabot/runtime/control/log_buffer.py: a ring buffer of numbered
-- entries, which clients poll. Python's `str.upper` and `str.lower` go by Unicode's tables and are
-- arguments.
use mathlib.Core.List.{reverse}
use aca_bot.Prelude.{
  ℕ, suc, ◌+◌, ◌-◌, max, String, Bool, false, ◌||◌, ◌&&◌, not, List, [], ◌∷◌, ◌++◌, length, drop,
  str_eq, leb, ltb, if◌then◌else◌, Dict,
}
use aca_bot.Threads.Records.{is_text}
use aca_bot.Compactor.Text.{strip}
use aca_bot.Logs.Search.{contains}

-- A value of `extra`: a text, a number or a truth value with what `str` shows of it, or another object.
pub data Extra : Type 0 where
  simple : (shown : String) → Extra
  complex : Extra

pub record LogEntry : Type 0 where
  pub timestamp : ℕ
  pub level : String
  pub logger : String
  pub message : String
  pub kind : String
  pub seq : ℕ
  pub extra : Dict Extra

pub record LogBuffer : Type 0 where
  pub max_entries : ℕ
  pub items : List LogEntry
  pub next_seq : ℕ

unfoldable pub init : (max_entries : ℕ) → LogBuffer
init max_entries = record { max_entries = max_entries; items = []; next_seq = 1 }

-- `deque(maxlen=…).append`: what is too much at the front falls out.
unfoldable pub push : (max_entries : ℕ) → List LogEntry → LogEntry → List LogEntry
push max_entries items entry =
    let longer = items ++ entry ∷ [] in drop (length longer - max_entries) longer

unfoldable pub assign : LogEntry → (next_seq : ℕ) → LogEntry
assign entry next_seq = if ltb 0 entry.seq then entry else record entry { seq = next_seq }

unfoldable pub append : LogEntry → LogBuffer → LogBuffer
unfolding push assign
append entry b =
    let assigned = assign entry b.next_seq in
    record b {
      items = push b.max_entries b.items assigned;
      next_seq = max b.next_seq (assigned.seq + 1);
    }

-- The arguments of `list_entries`.
pub record Query : Type 0 where
  pub after_seq : ℕ
  pub level : String
  pub keyword : String
  pub limit : ℕ

pub record Page : Type 0 where
  pub items : List LogEntry
  pub next_seq : ℕ
  pub reset_required : Bool

module _ (upper lower : String → String) where
  abbrev shows : String → Extra → Bool
  shows keyword (simple shown) = contains keyword (lower shown)
  shows keyword complex = false

  unfoldable pub extra_has : (keyword : String) → Dict Extra → Bool
  unfolding contains
  extra_has keyword [] = false
  extra_has keyword ((k, v) ∷ extra) =
      contains keyword (lower k) || shows keyword v || extra_has keyword extra

  -- Whether the entry passes the filters on level and keyword.
  unfoldable pub is_wanted : Query → LogEntry → Bool
  unfolding strip is_text contains extra_has
  is_wanted query item =
      let level = upper (strip query.level) in
      let keyword = lower (strip query.keyword) in
      (not (is_text level) || str_eq (upper item.level) level)
      && (not (is_text keyword)
          || contains keyword (lower item.message)
          || contains keyword (lower item.logger)
          || extra_has keyword item.extra)

  abbrev pub is_old : Query → LogEntry → Bool
  is_old query item = ltb 0 query.after_seq && leb item.seq query.after_seq

  -- The loop over the entries, the newest first, with `count` results so far.
  unfoldable pub collect : Query → (count : ℕ) → List LogEntry → List LogEntry
  unfolding is_wanted
  collect query count [] = []
  collect query count (item ∷ items) =
      let passed = collect query count items in
      let taken = collect query (suc count) items in
      if is_old query item
      then []
      else if not (is_wanted query item)
      then passed
      else if leb query.limit (suc count)
      then item ∷ []
      else item ∷ taken

  abbrev pub is_behind : Query → List LogEntry → Bool
  is_behind query [] = false
  is_behind query (oldest ∷ items) = ltb 0 query.after_seq && ltb query.after_seq (oldest.seq - 1)

  unfoldable pub list_entries : Query → LogBuffer → Page
  unfolding collect
  list_entries query b = record {
    items = reverse (collect query 0 (reverse b.items));
    next_seq = b.next_seq - 1;
    reset_required = is_behind query b.items;
  }
