-- ===== src/LiveTv/Stations.antt =====
-- `STATION_MAP` of stacks/schedulesdirect-epg/generate_schedulesdirect_epg.py.
use mediahub_configs.Prelude.{ℕ, List, [], ◌∷◌}
use mediahub_configs.Prelude.Codes.{codes}

-- The id of a channel in the playlist, and its station.
abbrev pub station_map : List (List ℕ × List ℕ)
station_map =
    (codes "secnetwork.us", codes "89714")
    ∷ (codes "espn.us", codes "32645")
    ∷ (codes "espn2.us", codes "45507")
    ∷ (codes "espnnews.us", codes "59976")
    ∷ (codes "espnu.us", codes "60696")
    ∷ (codes "accnetwork.us", codes "111871")
    ∷ (codes "foxwofl.us", codes "21221")
    ∷ (codes "abcwftv.us", codes "20491")
    ∷ (codes "cbs6wkmg.us", codes "21299")
    ∷ (codes "nbcwesh.us", codes "21647")
    ∷ (codes "aande.us", codes "10035")
    ∷ (codes "amc.us", codes "59337")
    ∷ (codes "animalplanet.us", codes "57394")
    ∷ (codes "bbcamerica.us", codes "64492")
    ∷ (codes "bether.us", codes "14897")
    ∷ (codes "bet.us", codes "63236")
    ∷ (codes "betwest.us", codes "14897")
    ∷ (codes "bravo.us", codes "58625")
    ∷ (codes "comedycentral.us", codes "62420")
    ∷ (codes "discoverychannel.us", codes "56905")
    ∷ (codes "discoveryfamily.us", codes "67749")
    ∷ (codes "eentertainment.us", codes "61812")
    ∷ (codes "foodnetwork.us", codes "12574")
    ∷ (codes "freeform.us", codes "59615")
    ∷ (codes "fx.us", codes "58574")
    ∷ (codes "fxx.us", codes "66379")
    ∷ (codes "gameshownetwork.us", codes "14909")
    ∷ (codes "hallmarkmoviesmysteries.us", codes "46710")
    ∷ (codes "hallmark.us", codes "66268")
    ∷ (codes "hgtv.us", codes "14902")
    ∷ (codes "historychannel.us", codes "57708")
    ∷ (codes "independentfilmchannel.us", codes "59444")
    ∷ (codes "investigationdiscovery.us", codes "65342")
    ∷ (codes "lifetimenetwork.us", codes "60150")
    ∷ (codes "mtv.us", codes "10986")
    ∷ (codes "natgeo.us", codes "49438")
    ∷ (codes "oxygen.us", codes "21484")
    ∷ (codes "paramountnetwork.us", codes "59186")
    ∷ (codes "syfy.us", codes "58623")
    ∷ (codes "tlc.us", codes "11158")
    ∷ (codes "tnt.us", codes "42642")
    ∷ (codes "trutv.us", codes "64490")
    ∷ (codes "usanetwork.us", codes "11207")
    ∷ (codes "vh1.us", codes "60046")
    ∷ (codes "weatherchannel.us", codes "58812")
    ∷ (codes "cinemax.us", codes "34933")
    ∷ (codes "fxm.us", codes "14988")
    ∷ (codes "hbo2.us", codes "10241")
    ∷ (codes "hbocomedypacific.us", codes "59839")
    ∷ (codes "hbocomedy.us", codes "59839")
    ∷ (codes "hbosignature.us", codes "10243")
    ∷ (codes "hbo.us", codes "10240")
    ∷ (codes "hbowest.us", codes "10240")
    ∷ (codes "moremax.us", codes "10121")
    ∷ (codes "showtimeextreme.us", codes "60947")
    ∷ (codes "showtimeshowcase.us", codes "61001")
    ∷ (codes "starzcinema.us", codes "67236")
    ∷ (codes "starzencore.us", codes "36225")
    ∷ (codes "starzinblack.us", codes "67235")
    ∷ (codes "sundancetv.us", codes "71280")
    ∷ (codes "turnerclassicmovies.us", codes "12852")
    ∷ (codes "mgm.us", codes "65687")
    ∷ (codes "mgmhits.us", codes "67929")
    ∷ (codes "mgmmarquee.us", codes "74073")
    ∷ (codes "epixhits.us", codes "67929")
    ∷ (codes "boomerang.us", codes "21883")
    ∷ (codes "disneyjunior.us", codes "74885")
    ∷ (codes "disneyxd.us", codes "60006")
    ∷ (codes "nickelodeon.us", codes "59432")
    ∷ (codes "nickjr.us", codes "82649")
    ∷ (codes "teennick.us", codes "59036")
    ∷ (codes "cartoonnetwork.us", codes "60048")
    ∷ (codes "disneychannel.us", codes "59684")
    ∷ (codes "nicktoons.us", codes "30420")
    ∷ (codes "abcwabc.us", codes "20453")
    ∷ (codes "foxwnyw.us", codes "20360")
    ∷ (codes "golfchannel.us", codes "14899")
    ∷ (codes "360northanchorage.us", codes "14899")
    ∷ (codes "bloombergtv.us", codes "71799")
    ∷ (codes "cnbc.us", codes "58780")
    ∷ (codes "cnninternational.us", codes "10146")
    ∷ (codes "cnn.us", codes "58646")
    ∷ (codes "cspan.us", codes "10161")
    ∷ (codes "cspan2.us", codes "10162")
    ∷ (codes "foxbusiness.us", codes "58718")
    ∷ (codes "foxnews.us", codes "60179")
    ∷ (codes "hln.us", codes "64549")
    ∷ (codes "newsmax.us", codes "97163")
    ∷ (codes "newsnation.us", codes "91096")
    ∷ (codes "bigtennetwork.us", codes "58321")
    ∷ (codes "cbssportsnetworkusa.us", codes "59250")
    ∷ (codes "foxdeportes.us", codes "72189")
    ∷ (codes "foxsports1.us", codes "82547")
    ∷ (codes "foxsports2.us", codes "59305")
    ∷ (codes "nflredzone.us", codes "65025")
    ∷ (codes "nflnetwork.us", codes "45399")
    ∷ (codes "nhlnetwork.us", codes "58690")
    ∷ (codes "tennischannel.us", codes "33395")
    ∷ []
