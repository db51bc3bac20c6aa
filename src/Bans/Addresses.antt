-- ===== src/Bans/Addresses.antt =====
-- The bans of addresses, one after the other.
use warhead_discord.Prelude.{
  same_text_refl, same_text, eq_of_same_text, subst, ◌||◌, if◌then◌else◌, ℕ, ◌<◌, ◌≡◌, refl, sym,
  ap, ◌∙◌, true, false, List, [], ◌∷◌, ◌++◌, some, map, arith, ◌==◌, length, Bool-cases, inl, inr,
}
use warhead_discord.Bans.{
  KnownSession, erase_ban, ban_info-now, BanInfo, ban_info, is_permanently, BanResponceCode, error,
  insert_ip_ban, banned, exist, BanMgr, find_ban, get_ban_info_ip, add_ip, delete_ip, kick_from,
  is_running, ban_ip,
}

get_ban_info_ip-add_ip :
    (m : BanMgr) (ip : List ℕ) (b : BanInfo) → get_ban_info_ip (add_ip m ip b) ip ≡ some b
unfolding get_ban_info_ip add_ip find_ban
get_ban_info_ip-add_ip m ip b = rw (same_text_refl ip)

delete_ip-sessions : (m : BanMgr) (ip : List ℕ) → (delete_ip m ip).sessions ≡ m.sessions
unfolding delete_ip
delete_ip-sessions m ip = ground arith

add_ip-sessions : (m : BanMgr) (ip : List ℕ) (b : BanInfo) → (add_ip m ip b).sessions ≡ m.sessions
unfolding add_ip
add_ip-sessions m ip b = refl

-- Kicked are the sessions that were, and those from the address.
map-kick_from :
    (ip : List ℕ) (sessions : List KnownSession)
    → map (kick_from ip) sessions
      ≡ map {A = KnownSession}
          (λ s. record s { kicked = s.kicked || same_text s.address ip })
          sessions
map-kick_from ip [] = refl
map-kick_from ip (s ∷ sessions) = elim (Bool-cases (same_text s.address ip)) [
  | inl e ↦ ground (arith, e, map-kick_from ip sessions)
  | inr e ↦ ground (arith, e, map-kick_from ip sessions)
]

find_ban-erase_ban :
    (store : List (List ℕ × BanInfo)) (ip other : List ℕ)
    → same_text ip other ≡ false
    → find_ban (erase_ban store ip) other ≡ find_ban store other
unfolding find_ban erase_ban
find_ban-erase_ban [] ip other ne = refl
find_ban-erase_ban ((key, b) ∷ store) ip other ne =
    let rest = find_ban-erase_ban store ip other ne in
    elim (Bool-cases (same_text key ip)) [
      | inl e ↦
          let gone : same_text key other ≡ false =
            subst (λ k. same_text k other ≡ false) (sym (eq_of_same_text key ip e)) ne in
          simp (e, gone) rest
      | inr e ↦ simp (e, rest) refl
    ]

get_ban_info_ip-delete_ip :
    (m : BanMgr) (ip other : List ℕ)
    → same_text ip other ≡ false
    → get_ban_info_ip (delete_ip m ip) other ≡ get_ban_info_ip m other
unfolding get_ban_info_ip delete_ip
get_ban_info_ip-delete_ip m ip other ne = ground (arith, find_ban-erase_ban m.store_ip ip other ne)

find-add_ip :
    (m : BanMgr) (ip other : List ℕ) (b : BanInfo)
    → get_ban_info_ip (add_ip m ip b) other
      ≡ (if same_text ip other then some b else get_ban_info_ip m other)
unfolding get_ban_info_ip add_ip find_ban
find-add_ip m ip other b = elim (Bool-cases (same_text ip other)) [
  | inl e ↦ ground (arith, e)
  | inr e ↦ ground (arith, e, find_ban-erase_ban m.store_ip ip other e)
]

abbrev before_add : BanMgr → List ℕ → ℕ → List ℕ → BanMgr
before_add m ip duration reason = record (delete_ip m ip) {
  statements = (delete_ip m ip).statements ++ insert_ip_ban ip duration reason ∷ [];
  sessions = map (kick_from ip) (delete_ip m ip).sessions;
}

accepted :
    (now : ℕ) (m m' : BanMgr) (ip : List ℕ) (duration : ℕ) (reason : List ℕ)
    → ban_ip now m ip duration reason ≡ (banned, m')
    → m' ≡ add_ip (before_add m ip duration reason) ip (ban_info now duration 0)
unfolding ban_ip
accepted now m m' ip duration reason h = elim (Bool-cases (length ip == 0)) [
  | inl nobody ↦
      let e : ◌≡◌ {A = BanResponceCode × BanMgr} (error, m) (banned, m') = simp nobody at h in
      let c : error ≡ banned = ap (λ r. r.0) e in cc
  | inr somebody ↦ elim (Bool-cases (is_running now (get_ban_info_ip m ip))) [
    | inl runs ↦
        let e : ◌≡◌ {A = BanResponceCode × BanMgr} (exist, m) (banned, m') =
          simp (somebody, runs) at h in
        let c : exist ≡ banned = ap (λ r. r.0) e in cc
    | inr over ↦
        let m2 = before_add m ip duration reason in
        let e : ◌≡◌ {A = BanResponceCode × BanMgr} (banned, add_ip m2 ip (ban_info now duration 0))
            (banned, m') =
          simp (somebody, over) at h in
        sym (ap (λ r. r.1) e)
  ]
]

-- The ban that a manager finds after one was added for `ip` to it.
find-before_add :
    (m : BanMgr) (ip other : List ℕ) (duration : ℕ) (reason : List ℕ) (b : BanInfo)
    → get_ban_info_ip (add_ip (before_add m ip duration reason) ip b) other
      ≡ (if same_text ip other then some b else get_ban_info_ip m other)
unfolding get_ban_info_ip
find-before_add m ip other duration reason b =
    let added = find-add_ip (before_add m ip duration reason) ip other b in
    elim (Bool-cases (same_text ip other)) [
      | inl e ↦ added ∙ simp e refl
      | inr e ↦ added ∙ simp (e, get_ban_info_ip-delete_ip m ip other e) refl
    ]

accepted-found :
    (now : ℕ) (m m' : BanMgr) (ip : List ℕ) (duration : ℕ) (reason : List ℕ)
    → ban_ip now m ip duration reason ≡ (banned, m')
    → get_ban_info_ip m' ip ≡ some (ban_info now duration 0)
accepted-found now m m' ip duration reason h =
    ap (λ x. get_ban_info_ip x ip) (accepted now m m' ip duration reason h)
    ∙ get_ban_info_ip-add_ip (before_add m ip duration reason) ip (ban_info now duration 0)

-- A ban that is accepted is the one that is found for its address from then on, with the duration,
-- the time of the call and, as its end, the duration; for every other address the ban that was
-- found before is found. A session is kicked if it was before or if it comes from the address, and
-- is else as it was.
pub ban_ip-banned :
    (now : ℕ) (m m' : BanMgr) (ip : List ℕ) (duration : ℕ) (reason : List ℕ)
    → ban_ip now m ip duration reason ≡ (banned, m')
    → ((other : List ℕ)
        → get_ban_info_ip m' other ≡ (
            if same_text ip other
            then some (record { duration = duration; ban_date = now; unban_date = duration })
            else get_ban_info_ip m other))
      × (m'.sessions
          ≡ map {A = KnownSession}
              (λ s. record s { kicked = s.kicked || same_text s.address ip })
              m.sessions)
ban_ip-banned now m m' ip duration reason h =
    let same = accepted now m m' ip duration reason h in
    let b = ban_info now duration 0 in
    (
      λ other.
          ap (λ x. get_ban_info_ip x other) same
          ∙ find-before_add m ip other duration reason b
          ∙ ap (λ c. if same_text ip other then some c else get_ban_info_ip m other)
              (ban_info-now now duration),
      ap (λ x. x.sessions) same
          ∙ add_ip-sessions (before_add m ip duration reason) ip b
          ∙ ap (map (kick_from ip)) (delete_ip-sessions m ip)
          ∙ map-kick_from ip m.sessions,
    )

permanent-runs : (now later : ℕ) → is_running later (some (ban_info now 0 0)) ≡ true
unfolding is_running is_permanently ban_info
permanent-runs now later = refl

timed-is_over :
    (now duration : ℕ)
    → 0 < duration
    → duration < now
    → is_running now (some (ban_info now duration 0)) ≡ false
unfolding is_running is_permanently ban_info
timed-is_over now duration some_time past = ground arith

-- An address (not the empty one) that was banned for ever stays banned, whatever time passes:
-- another ban of it is answered so, and changes nothing.
pub permanent_ban-stays :
    (now later : ℕ) (m m' : BanMgr) (ip : List ℕ) (duration : ℕ) (reason reason' : List ℕ)
    → ban_ip now m ip 0 reason ≡ (banned, m')
    → 0 < length ip
    → ban_ip later m' ip duration reason' ≡ (exist, m')
unfolding ban_ip
permanent_ban-stays now later m m' ip duration reason reason' h some_text =
    let found = accepted-found now m m' ip 0 reason h in
    let text : (length ip == 0) ≡ false = ground arith in
    let runs : is_running later (get_ban_info_ip m' ip) ≡ true =
      ap (is_running later) found ∙ permanent-runs now later in
    rw (text, runs)

-- A ban for a time that is shorter than the time since 1970 is over at once: the same address can
-- be banned again in the same second.
pub timed_ban-is_over :
    (now : ℕ) (m m' : BanMgr) (ip : List ℕ) (duration : ℕ) (reason : List ℕ)
    → ban_ip now m ip duration reason ≡ (banned, m')
    → 0 < length ip
    → 0 < duration
    → duration < now
    → (ban_ip now m' ip duration reason).0 ≡ banned
unfolding ban_ip
timed_ban-is_over now m m' ip duration reason h some_text some_time past =
    let found = accepted-found now m m' ip duration reason h in
    let text : (length ip == 0) ≡ false = ground arith in
    let over : is_running now (get_ban_info_ip m' ip) ≡ false =
      ap (is_running now) found ∙ timed-is_over now duration some_time past in
    rw (text, over)
