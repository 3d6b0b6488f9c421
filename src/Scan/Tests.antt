-- ===== src/Scan/Tests.antt =====
-- The loop of fscanf_test.c on file_io/user.txt, and the theorems there.
use linux_application_layer.Common.{
  ◌≡◌, ◌≤◌, length, refl, true, false, none, some, List, [], ◌∷◌, ◌++◌, map, arith,
}
use linux_application_layer.MessageQueue.{Bytes}
use linux_application_layer.Scan.{skip_space, pos, Line, unset, nothing, Shown, fscanf_loop}
use linux_application_layer.Scan.Lines.{Entry, line_of, row_of, IsWord, IsEntry}
use linux_application_layer.Scan.Fuel.{fscanf_ends}
use linux_application_layer.Scan.Ends.{file_of, AllEntries, reads_back, repeats_last}

abbrev luomiou : Entry
luomiou = record {
  name = 231 ∷ 189 ∷ 151 ∷ 229 ∷ 175 ∷ 134 ∷ 230 ∷ 172 ∷ 167 ∷ [];
  age = 18;
  wife = 230 ∷ 156 ∷ 177 ∷ 228 ∷ 184 ∷ 189 ∷ 229 ∷ 143 ∷ 182 ∷ [];
}

abbrev jia_baoyu : Entry
jia_baoyu = record {
  name = 232 ∷ 180 ∷ 190 ∷ 229 ∷ 174 ∷ 157 ∷ 231 ∷ 142 ∷ 137 ∷ [];
  age = 14;
  wife = 232 ∷ 150 ∷ 155 ∷ 229 ∷ 174 ∷ 157 ∷ 233 ∷ 146 ∷ 151 ∷ [];
}

abbrev liang_shanbo : Entry
liang_shanbo = record {
  name = 230 ∷ 162 ∷ 129 ∷ 229 ∷ 177 ∷ 177 ∷ 228 ∷ 188 ∷ 175 ∷ [];
  age = 16;
  wife = 231 ∷ 165 ∷ 157 ∷ 232 ∷ 139 ∷ 177 ∷ 229 ∷ 143 ∷ 176 ∷ [];
}

abbrev users : List Entry
users = luomiou ∷ jia_baoyu ∷ liang_shanbo ∷ []

-- The last line has only a name.
abbrev haige : Bytes
haige = 230 ∷ 181 ∷ 183 ∷ 229 ∷ 147 ∷ 165 ∷ []

abbrev user_txt : Bytes
user_txt =
    231 ∷ 189 ∷ 151 ∷ 229 ∷ 175 ∷ 134 ∷ 230 ∷ 172 ∷ 167 ∷ 32 ∷ 49 ∷ 56 ∷ 32 ∷ 230 ∷ 156 ∷ 177 ∷ 228
    ∷ 184 ∷ 189 ∷ 229 ∷ 143 ∷ 182 ∷ 10 ∷ 232 ∷ 180 ∷ 190 ∷ 229 ∷ 174 ∷ 157 ∷ 231 ∷ 142 ∷ 137 ∷ 32
    ∷ 49 ∷ 52 ∷ 32 ∷ 232 ∷ 150 ∷ 155 ∷ 229 ∷ 174 ∷ 157 ∷ 233 ∷ 146 ∷ 151 ∷ 10 ∷ 230 ∷ 162 ∷ 129
    ∷ 229 ∷ 177 ∷ 177 ∷ 228 ∷ 188 ∷ 175 ∷ 32 ∷ 49 ∷ 54 ∷ 32 ∷ 231 ∷ 165 ∷ 157 ∷ 232 ∷ 139 ∷ 177
    ∷ 229 ∷ 143 ∷ 176 ∷ 10 ∷ 10 ∷ 230 ∷ 181 ∷ 183 ∷ 229 ∷ 147 ∷ 165 ∷ []

user_txt_lem : file_of users (10 ∷ haige) ≡ user_txt
user_txt_lem = refl

abbrev garbage : Line
garbage = record { name = []; age = some (pos 7); wife = none }

luomiou-IsEntry : IsEntry luomiou
luomiou-IsEntry = ground arith

jia_baoyu-IsEntry : IsEntry jia_baoyu
jia_baoyu-IsEntry = ground arith

liang_shanbo-IsEntry : IsEntry liang_shanbo
liang_shanbo-IsEntry = ground arith

haige-IsWord : IsWord haige
haige-IsWord = ground arith

users-AllEntries : AllEntries users
users-AllEntries = (luomiou-IsEntry, (jia_baoyu-IsEntry, (liang_shanbo-IsEntry, tt)))

reads_back_example :
    fscanf_loop 4 garbage (file_of users (10 ∷ []))
    ≡ some (record { lines = map line_of users; rows = map row_of users; defined = true })
unfolding skip_space
reads_back_example = reads_back 4 garbage users (10 ∷ []) users-AllEntries refl (omega arith)

repeats_last_example :
    (fscanf_loop 6 garbage (file_of users (10 ∷ haige))
      ≡ some (record {
        lines = map line_of users ++ (record (line_of liang_shanbo) { name = haige } ∷ []);
        rows = map row_of users ++ (record (row_of liang_shanbo) { name = haige } ∷ []);
        defined = true;
      }))
    × (fscanf_loop 6 unset (10 ∷ haige) ≡ some (nothing false))
unfolding skip_space
repeats_last_example =
    repeats_last 6 garbage luomiou (jia_baoyu ∷ liang_shanbo ∷ []) (10 ∷ haige) haige
      users-AllEntries refl haige-IsWord (omega arith)

fscanf_ends_example :
    (s : Shown) × ((fscanf_loop 100 unset user_txt ≡ some s)
      × (fscanf_loop 200 unset user_txt ≡ some s)
      × (length s.lines ≤ length user_txt))
fscanf_ends_example = fscanf_ends 100 200 unset user_txt (omega arith) (omega arith)
