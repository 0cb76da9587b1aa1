-- ===== src/Examples.antt =====
-- Each theorem with conditions at an input on which they hold: msgpool.cpp, msgqueue.cpp,
-- buffer.cpp, base64.cpp, msgrouterrulesengine.cpp, commandhandlerfactory.cpp, connectioncache.cpp,
-- connectionqueue.cpp, levenshtein.cpp, crc32.cpp, uniqueidprovider.cpp, routingtag.cpp,
-- headerextract.cpp, msg.cpp, keyvalue.cpp, url.cpp and ipaccess.cpp.
mod Connections
mod Memory
mod Messages
mod Numbers
mod Parsing
mod Rounds
mod Routing
mod Stores
mod Tags
