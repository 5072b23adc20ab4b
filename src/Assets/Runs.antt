-- ===== src/Assets/Runs.antt =====
-- A file system in memory, and runs of the asset stores.
use receiptd.Base.{◌≡◌, refl, true, false, Option, none, some, List, [], ◌∷◌, if◌then◌else◌}
use receiptd.Base.Text.{Text, codes, text_eq}
use receiptd.Base.Utf8.{contains_any}
use receiptd.Base.Map.{lookup, IsMap, remove, put as set, put-IsMap, remove-IsMap}
use receiptd.Base.Sort.{sort_by}
use receiptd.Apperr.{GoError, errorf, Result, ok, err}
use receiptd.Assets.{Info, Bytes, View, IsName}
use receiptd.Assets.Memory.{Entries, get, put, delete, infos_of}
use receiptd.Assets.Memory.Laws.{view, IsMissing}
use receiptd.Assets.Memory.Roundtrip.{not_found, put-get-delete}
use receiptd.Assets.Files.{DirEntry, Fs}

abbrev missing : GoError
missing = errorf "file does not exist" []

-- The files of a directory, none of them twice.
abbrev Disk : Type 0
Disk = (s : Entries) × IsMap s

abbrev read_file : Text → Entries → Result Bytes
read_file n s = elim (lookup n s) [ none ↦ err missing | some e ↦ ok e.bytes ]

abbrev remove_file : Text → (s : Entries) → IsMap s → Option GoError × Disk
remove_file n s u = elim (lookup n s) [
  | none ↦ (some missing, (s, u))
  | some e ↦ (none, (remove n s, remove-IsMap n s u))
]

abbrev dir_entries : List Info → List DirEntry
dir_entries [] = []
dir_entries (i ∷ is) =
    record { name = i.name; is_dir = false; info = ok (i.size, i.mod_time) } ∷ dir_entries is

abbrev disk : Fs Disk
disk = record {
  join = λ root n. n;
  read_file = λ n s. read_file n s.0;
  mkdir_all = λ root s. (none, s);
  write_file = λ n d now s. (
    none,
    (
      set n (record { bytes = d; mod_time = now }) s.0,
      put-IsMap n (record { bytes = d; mod_time = now }) s.0 s.1,
    ),
  );
  remove = λ n s. remove_file n s.0 s.1;
  read_dir = λ root s. ok (dir_entries (sort_by (λ i. i.name) (infos_of s.0)));
  is_not_exist = λ e. true;
}

abbrev files : Disk → View
files s = view s.0

-- Nothing is stored under the name.
abbrev NoneStored : Disk → Text → Type 0
NoneStored s n = IsMissing s.0 n

abbrev logo : Text
logo = codes "logo.png"

logo-IsName : IsName logo
unfolding contains_any
logo-IsName = (refl, refl, λ h. cc h, λ h. cc h)

abbrev shelf : Entries
shelf =
    (codes "a", record { bytes = 1 ∷ 2 ∷ []; mod_time = 5 })
    ∷ (logo, record { bytes = 3 ∷ []; mod_time = 6 })
    ∷ []

put-get-delete_example :
    ((put logo (7 ∷ 8 ∷ []) 9 shelf).0 ≡ none)
    × ((m : Text)
        → get m (put logo (7 ∷ 8 ∷ []) 9 shelf).1
          ≡ (if text_eq logo m then ok (7 ∷ 8 ∷ []) else get m shelf))
    × ((delete logo (put logo (7 ∷ 8 ∷ []) 9 shelf).1).0 ≡ none)
    × ((m : Text)
        → get m (delete logo (put logo (7 ∷ 8 ∷ []) 9 shelf).1).1
          ≡ (if text_eq logo m then err (not_found logo) else get m shelf))
put-get-delete_example = put-get-delete logo (7 ∷ 8 ∷ []) 9 shelf logo-IsName
