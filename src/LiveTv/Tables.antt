-- ===== src/LiveTv/Tables.antt =====
-- The tables of stacks/threadfin/generate_live_m3u.py: what is overridden, and which groups and
-- channels are taken.
use mediahub_configs.Prelude.{ℕ, List, [], ◌∷◌}
use mediahub_configs.Prelude.Codes.{codes}

-- Each name, with its logo.
abbrev pub logo_overrides : List (List ℕ × List ℕ)
logo_overrides =
    (
      codes "CBS 2 WFMY GREENSBORO",
      codes "http://185.193.88.130:80/images/d90cbfe9c7b343dd2eafef8117272284.png",
    )
    ∷ (
      codes "CBS 6 WKMG ORLANDO",
      codes "https://upload.wikimedia.org/wikipedia/commons/d/d7/WKMG-TV_Logo.jpg",
    )
    ∷ (
      codes "NBC 2 WESH ORLANDO",
      codes "http://192.168.0.21:34400/images/5754cc8a4a5e72bb7cc79d3c0585559b.png",
    )
    ∷ []

abbrev pub epg_id_overrides : List (List ℕ × List ℕ)
epg_id_overrides = (codes "NBC 2 WESH ORLANDO", codes "nbcwesh.us") ∷ []

abbrev pub full_groups : List (List ℕ)
full_groups =
    codes "USA Latin UNIVISION"
    ∷ codes "USA Latin TELEMUNDO"
    ∷ codes "USA Latin GALAVISION"
    ∷ codes "USA Latin UNIMAS"
    ∷ codes "MX: Mexico Entertainment"
    ∷ codes "MX: Mexico General"
    ∷ codes "MX: Mexico News"
    ∷ codes "MX: Mexico Kids"
    ∷ codes "MX: Mexico Sports"
    ∷ []

abbrev usa_sports : List (List ℕ)
usa_sports =
    codes "ESPN HD"
    ∷ codes "ESPN 2"
    ∷ codes "ESPN NEWS HD"
    ∷ codes "ESPN U HD"
    ∷ codes "ESPN SEC Network"
    ∷ codes "FOX SPORTS 1 HD"
    ∷ codes "FOX SPORTS 2 HD"
    ∷ codes "CBS Sports Network"
    ∷ codes "NFL Redzone"
    ∷ codes "Golf LHD"
    ∷ codes "Tennis Channel"
    ∷ codes "ACC Network"
    ∷ codes "Big Ten Network UHD"
    ∷ codes "PAC-12 Mountain"
    ∷ codes "UFC Fight Pass"
    ∷ codes "Fight Network"
    ∷ codes "MavTV Motorsports"
    ∷ codes "Olympic Channel"
    ∷ codes "Stadium 1"
    ∷ codes "FS1"
    ∷ codes "FS2"
    ∷ codes "NHL NETWORK HD"
    ∷ codes "CBS Sports Golazo"
    ∷ codes "FOX DEPORTES HD"
    ∷ codes "NFL NETWORK (Backup)"
    ∷ []

abbrev usa_nbc_sports : List (List ℕ)
usa_nbc_sports = codes "NBC GOLF HD" ∷ []

abbrev usa_news : List (List ℕ)
usa_news =
    codes "CNN UHD"
    ∷ codes "CNN INTERNATIONAL"
    ∷ codes "CNN*"
    ∷ codes "Fox News Channel"
    ∷ codes "Fox Business UHD"
    ∷ codes "CNBC UHD"
    ∷ codes "C-SPAN"
    ∷ codes "C-SPAN 2"
    ∷ codes "C-SPAN 3"
    ∷ codes "AL JAZEERA HD"
    ∷ codes "NewsNation"
    ∷ codes "NEWSMAX"
    ∷ codes "Newsmax 2"
    ∷ codes "OAN (One America News Network)"
    ∷ codes "BBC World News"
    ∷ codes "Bloomberg"
    ∷ codes "HLN"
    ∷ codes "FOX Weather"
    ∷ codes "Scripps News"
    ∷ []

abbrev usa_entertainment : List (List ℕ)
usa_entertainment =
    codes "AMC"
    ∷ codes "A&E UHD"
    ∷ codes "Animal Planet East UHD"
    ∷ codes "BET East"
    ∷ codes "BET HER"
    ∷ codes "Bravo East"
    ∷ codes "Comedy Central FHD"
    ∷ codes "Discovery East"
    ∷ codes "Discovery Family"
    ∷ codes "E! Entertainment"
    ∷ codes "Food Network East UHD"
    ∷ codes "Freeform"
    ∷ codes "FX"
    ∷ codes "GSN (Game Show Network)"
    ∷ codes "Hallmark Channel"
    ∷ codes "Hallmark Movies & Mysteries UHD"
    ∷ codes "HGTV East UHD"
    ∷ codes "History East UHD"
    ∷ codes "IFC"
    ∷ codes "Lifetime East UHD"
    ∷ codes "MTV East UHD"
    ∷ codes "Nat Geo East"
    ∷ codes "Syfy East"
    ∷ codes "TBS East"
    ∷ codes "TLC East"
    ∷ codes "TNT East FHD"
    ∷ codes "truTV East"
    ∷ codes "USA Network East"
    ∷ codes "VH1 UHD"
    ∷ codes "BBC America HD"
    ∷ codes "The Weather Channel"
    ∷ codes "Oxygen East"
    ∷ codes "Paramount East UHD"
    ∷ codes "Science Channel"
    ∷ []

abbrev usa_movies_channels : List (List ℕ)
usa_movies_channels =
    codes "HBO East"
    ∷ codes "HBO Comedy"
    ∷ codes "HBO Drama"
    ∷ codes "HBO Hits East"
    ∷ codes "HBO West"
    ∷ codes "Showtime Showcase"
    ∷ codes "Showtime Extreme"
    ∷ codes "Showtime 2"
    ∷ codes "Cinemax East"
    ∷ codes "Cinemax Hits East"
    ∷ codes "StarZ East"
    ∷ codes "Starz Cinema"
    ∷ codes "Starz Encore East"
    ∷ codes "Starz in Black East"
    ∷ codes "TCM"
    ∷ codes "Turner Classic Movies"
    ∷ codes "FXM"
    ∷ codes "FX East UHD"
    ∷ codes "EPIX"
    ∷ codes "EPIX2"
    ∷ codes "The Film Detective"
    ∷ codes "RetroPlex East"
    ∷ codes "Sundance"
    ∷ codes "MGM+ UHD"
    ∷ codes "LIFETIME MOVIES HD"
    ∷ []

abbrev usa_local_fox : List (List ℕ)
usa_local_fox = codes "FOX 5 WNYW NEW YORK" ∷ codes "FOX 35 WOFL ORLANDO" ∷ []

abbrev usa_local_abc : List (List ℕ)
usa_local_abc = codes "ABC 7 WABC NEW YORK" ∷ codes "ABC 9 WFTV ORLANDO" ∷ []

abbrev usa_local_cbs : List (List ℕ)
usa_local_cbs = codes "CBS 2 WFMY GREENSBORO" ∷ codes "CBS 6 WKMG ORLANDO" ∷ []

abbrev usa_local_nbc : List (List ℕ)
usa_local_nbc = codes "NBC 2 WESH ORLANDO" ∷ []

abbrev usa_family_kids : List (List ℕ)
usa_family_kids =
    codes "Cartoon Network East"
    ∷ codes "Disney Channel East"
    ∷ codes "Disney Junior East"
    ∷ codes "Disney XD"
    ∷ codes "Nick Jr East"
    ∷ codes "Nickelodeon UHD"
    ∷ codes "Boomerang"
    ∷ codes "PBS Kids"
    ∷ codes "Teen Nick"
    ∷ codes "Nick Toon UHD"
    ∷ []

-- The groups of which only some channels are taken, with what their names hold.
abbrev pub curated_groups : List (List ℕ × List (List ℕ))
curated_groups =
    (codes "USA Sports", usa_sports)
    ∷ (codes "USA NBC Sports", usa_nbc_sports)
    ∷ (codes "USA News", usa_news)
    ∷ (codes "USA Entertainment", usa_entertainment)
    ∷ (codes "USA Movies Channels", usa_movies_channels)
    ∷ (codes "USA Local - FOX", usa_local_fox)
    ∷ (codes "USA Local - ABC", usa_local_abc)
    ∷ (codes "USA Local - CBS", usa_local_cbs)
    ∷ (codes "USA Local - NBC", usa_local_nbc)
    ∷ (codes "USA Family & Kids", usa_family_kids)
    ∷ []

-- Groups with the exact names that are taken.
abbrev pub exact_names : List (List ℕ × List (List ℕ))
exact_names = (codes "USA NFL - Sunday Ticket", codes "USA NFL Network" ∷ []) ∷ []
