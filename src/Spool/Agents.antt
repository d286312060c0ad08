-- ===== src/Spool/Agents.antt =====
-- The names of user agents, `AllGroups::summarize` of spoolstats/AllGroups.cc.
use nntp_tools.Prelude.{Bool, true, false, List, [], ◌∷◌, ◌++◌, Bytes, codes, ◌==◌, if◌then◌else◌}
use nntp_tools.Text.{starts_with, has_substring}
use nntp_tools.Property.{Values, summarize}

-- `clients`: what is looked for, and the name that it stands for.
abbrev pub clients : List (Bytes × Bytes)
clients =
    (codes "40tude_Dialog", codes "40tude_Dialog")
    ∷ (codes "Alpine", codes "Alpine")
    ∷ (codes "alpine", codes "Alpine")
    ∷ (codes "Apple Mail", codes "Apple Mail")
    ∷ (codes "Claws Mail", codes "Claws Mail")
    ∷ (codes "Direct Read News", codes "Direct Read News")
    ∷ (codes "Emas", codes "Emas")
    ∷ (codes "Forte Agent", codes "Forte Agent")
    ∷ (codes "ForteAgent", codes "Forte Agent")
    ∷ (codes "Forte Free Agent", codes "Forte Agent")
    ∷ (codes "^G2", codes "Google Groups")
    ∷ (codes "Gnus", codes "Gnus")
    ∷ (codes "^gnus", codes "Gnus")
    ∷ (codes "Groundhog Newsreader for Android", codes "Groundhog Newsreader for Android")
    ∷ (codes "Hamster", codes "Hamster")
    ∷ (codes "Hogwasher", codes "Hogwasher")
    ∷ (codes "JetBrains Omea Reader", codes "JetBrains Omea Reader")
    ∷ (codes "knews", codes "knews")
    ∷ (codes "KNode", codes "KNode")
    ∷ (codes "Lotus Notes", codes "Lotus Notes")
    ∷ (codes "MacSOUP", codes "MacSOUP")
    ∷ (codes "MesNews", codes "MesNews")
    ∷ (codes "Messenger-Pro", codes "Messenger-Pro")
    ∷ (codes "Michi Buster", codes "Michi Buster")
    ∷ (codes "MicroPlanet Gravity", codes "MicroPlanet Gravity")
    ∷ (codes "MicroPlanet-Gravity", codes "MicroPlanet Gravity")
    ∷ (codes "Microsoft Outlook Express", codes "Outlook Express")
    ∷ ((codes "Microsoft-Outlook-" ++ (0xC2 ∷ 0xA9 ∷ codes "Express")), codes "Outlook Express")
    ∷ (codes "Microsoft Windows Mail", codes "Outlook Express")
    ∷ (codes "Microsoft Windows Live Mail", codes "Outlook Express")
    ∷ (codes "Microsoft Internet News", codes "Microsoft Internet News")
    ∷ (codes "Microsoft-Entourage", codes "Microsoft Entourage")
    ∷ (codes "NewsWatcher", codes "NewsWatcher")
    ∷ (codes "Mutt", codes "Mutt")
    ∷ (codes "Netscape", codes "Netscape")
    ∷ (codes "NewsHound", codes "NewsHound")
    ∷ (codes "NewsLeecher", codes "NewsLeecher")
    ∷ (codes "NewsPortal", codes "NewsPortal")
    ∷ (codes "NewsTap", codes "NewsTap")
    ∷ (codes "Noworyta News Reader", codes "Noworyta News Reader")
    ∷ (codes "Opera", codes "Opera")
    ∷ (codes "Pan", codes "Pan")
    ∷ (codes "^pan ", codes "Pan")
    ∷ (codes "Pegasus Mail", codes "Pegasus Mail")
    ∷ (codes "Pluto", codes "Pluto")
    ∷ (codes "PMINews", codes "PMINews")
    ∷ (codes "ProNews", codes "ProNews")
    ∷ (codes "SeaMonkey", codes "SeaMonkey")
    ∷ (codes "Iceape", codes "SeaMonkey")
    ∷ (codes "slrn", codes "slrn")
    ∷ (codes "Sylpheed", codes "Sylpheed")
    ∷ (codes "Thoth", codes "Thoth")
    ∷ (codes "Thunderbird", codes "Thunderbird")
    ∷ (codes "Lanikai", codes "Thunderbird")
    ∷ (codes "Shredder", codes "Thunderbird")
    ∷ (codes "Icedove", codes "Thunderbird")
    ∷ (codes "^tin", codes "tin")
    ∷ (codes "^TIN", codes "tin")
    ∷ (codes "TRAVEL.com", codes "TRAVEL.com")
    ∷ (codes "trn", codes "trn")
    ∷ (codes "Turnpike", codes "Turnpike")
    ∷ (codes "^U <", codes "Turnpike")
    ∷ (codes "Unison", codes "Unison")
    ∷ (codes "XanaNews", codes "XanaNews")
    ∷ (codes "Xnews", codes "Xnews")
    ∷ (codes "XPN", codes "XPN")
    ∷ (codes "^NN/", codes "NN")
    ∷ (codes "^NN ", codes "NN")
    ∷ (codes "^nn/", codes "NN")
    ∷ (codes "^nn ", codes "NN")
    ∷ (codes "WinVN", codes "WinVN")
    ∷ (codes "News Xpress", codes "News Xpress")
    ∷ (codes "NewsAgent", codes "NewsAgent")
    ∷ (codes "PC Piggy News", codes "PC Piggy News")
    ∷ (codes "MATLAB Central Newsreader", codes "MATLAB Central Newsreader")
    ∷ (codes "Flrn", codes "Flrn")
    ∷ (codes "Loom", codes "Loom")
    ∷ (codes "iForth", codes "iForth")
    ∷ (codes "SquirrelMail", codes "SquirrelMail")
    ∷ (codes "NewsMan Pro", codes "NewsMan Pro")
    ∷ (codes "News Rover", codes "News Rover")
    ∷ (codes "AspNNTP", codes "AspNNTP")
    ∷ (codes "Grepler", codes "Grepler")
    ∷ (codes "^xrn", codes "xrn")
    ∷ (codes "Web-News", codes "Web-News")
    ∷ (codes "Marcel", codes "Marcel")
    ∷ (codes "Gemini", codes "Gemini")
    ∷ (codes "newsSync", codes "newsSync")
    ∷ (codes "FUDforum", codes "FUDforum")
    ∷ (codes "KMail", codes "KMail")
    ∷ (codes "Pineapple News", codes "Pineapple News")
    ∷ (codes "Evolution", codes "Evolution")
    ∷ (codes "Internet Messaging Program (IMP)", codes "Internet Messaging Program (IMP)")
    ∷ (codes "MR/2", codes "MR/2")
    ∷ (codes "postfaq", codes "postfaq")
    ∷ (codes "Virtual Access", codes "Virtual Access")
    ∷ (codes "PenguinReader", codes "PenguinReader")
    ∷ (codes "http://www.umailcampaign.com", codes "http://www.umailcampaign.com")
    ∷ (codes "YahooMailWebService", codes "YahooMailWebService")
    ∷ (codes "^Mozilla", codes "Mozilla-compatible browser")
    ∷ []

-- A text behind `^` must be at the start.
unfoldable pub matches : Bytes → Bytes → Bool
matches [] ua = has_substring ua []
matches (c ∷ s) ua = if c == b'^' then starts_with ua s else has_substring ua (c ∷ s)

-- The loop over the clients: the first that matches, or the agent itself.
unfoldable pub client_name : List (Bytes × Bytes) → Bytes → Bytes
client_name [] ua = ua
client_name ((substring, name) ∷ cs) ua = elim (matches substring ua) [
  | true ↦ name
  | false ↦ client_name cs ua
]

-- `AllGroups::summarize`.
unfoldable pub agent_name : Bytes → Bytes
unfolding client_name
agent_name ua = client_name clients ua

-- The counters by client, as `report_agents` makes them of those by user agent.
unfoldable pub summarized_agents : Values → Values
unfolding agent_name
summarized_agents useragents = summarize agent_name useragents []
